-- ===== src/Domain/Registration.antt =====
-- What a registration creates besides the tenant and its owner (internal/domain/models.go), and
-- `RegisterRequest` (internal/domain/requests.go), with the requests on payment methods.
use service_api.Base.{ℕ, Bool, Option, String, ℤ}

pub record PaymentMethod : Type 0 where
  pub id : ℕ
  pub tenant_id : ℕ
  pub name : String
  pub method_type : String
  pub is_active : Bool
  pub sort_order : ℤ
  pub created_at : ℕ

pub record RegisterRequest : Type 0 where
  pub business_name : String
  pub slug : String
  pub owner_name : String
  pub email : String
  pub password : String

-- internal/domain/requests.go; the Go `int` of the order is written to an INT column.
pub record CreatePaymentMethodRequest : Type 0 where
  pub name : String
  pub method_type : String
  pub sort_order : ℤ

pub record UpdatePaymentMethodRequest : Type 0 where
  pub name : String
  pub method_type : String
  pub sort_order : Option ℤ
  pub is_active : Option Bool
