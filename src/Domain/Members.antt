-- ===== src/Domain/Members.antt =====
-- `Member` (internal/domain/models.go) and the log of redemptions.
use service_api.Base.{ℕ, Bool, Option, String}
use service_api.Base.{ℤ}

pub data Tier : Type 0 where
  bronze silver gold platinum : Tier

pub record Member : Type 0 where
  pub id : ℕ
  pub tenant_id : Option ℕ
  pub name : String
  pub phone : String
  pub email : String
  pub tier : Tier
  pub discount_percent : ℤ
  pub total_points : ℤ
  pub total_spending : ℤ
  pub referral_code : Option String
  pub referred_by_member_id : Option ℕ
  pub has_first_transaction : Bool
  pub created_at : ℕ

pub record PointRedemption : Type 0 where
  pub tenant_id : ℕ
  pub member_id : ℕ
  pub points_redeemed : ℤ
  pub discount_amount : ℤ
