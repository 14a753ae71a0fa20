-- ===== src/Domain/Billing.antt =====
-- Plans, subscriptions and monthly usage (internal/domain/billing.go).
use service_api.Base.{ℕ, Bool, Option, String}
use service_api.Base.{ℤ}

pub record SubscriptionPlan : Type 0 where
  pub id : ℕ
  pub slug : String
  pub max_outlets : ℤ
  pub max_transactions_per_month : ℤ
  pub is_active : Bool

pub record TenantSubscription : Type 0 where
  pub id : ℕ
  pub tenant_id : ℕ
  pub plan_id : ℕ
  pub current_period_start : ℕ
  pub current_period_end : ℕ

pub record TenantUsage : Type 0 where
  pub id : ℕ
  pub tenant_id : ℕ
  pub period_start : ℕ
  pub period_end : ℕ
  pub transaction_count : ℤ
  pub outlet_count : ℤ
  pub updated_at : ℕ

pub record Outlet : Type 0 where
  pub id : ℕ
  pub tenant_id : ℕ
  pub name : String
  pub address : String
  pub phone : String
  pub is_active : Bool
  pub created_at : ℕ
  pub updated_at : ℕ

-- internal/domain/requests.go
pub record CreateOutletRequest : Type 0 where
  pub name : String
  pub address : String
  pub phone : String

pub record UpdateOutletRequest : Type 0 where
  pub name : String
  pub address : String
  pub phone : String
  pub is_active : Option Bool

pub record SubscriptionInfo : Type 0 where
  pub plan : SubscriptionPlan
  pub subscription : Option TenantSubscription
  pub usage : Option TenantUsage
  pub is_within_limits : Bool
  pub transaction_limit : ℤ
  pub transactions_used : ℤ
  pub outlet_limit : ℤ
  pub outlets_used : ℤ
