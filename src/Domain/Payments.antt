-- ===== src/Domain/Payments.antt =====
-- Gateway payments and the gateway's configuration (internal/domain/models.go).
use service_api.Base.{ℕ, Bool, Option, String}
use service_api.Base.{ℤ}

-- The column's CHECK constraint admits these six texts.
pub data GatewayStatus : Type 0 where
  pending active paid expired failed cancelled : GatewayStatus

pub record GatewayConfig : Type 0 where
  pub tenant_id : ℕ
  pub is_enabled : Bool
  pub secret_key_encrypted : String
  pub public_key : Option String

pub record GatewayPayment : Type 0 where
  pub id : ℕ
  pub tenant_id : ℕ
  pub transaction_id : ℕ
  pub payment_item_id : ℕ
  pub gateway_type : String
  pub external_id : String
  pub gateway_ref_id : Option String
  pub amount : ℤ
  pub gateway_status : GatewayStatus
  pub gateway_payment_url : Option String
  pub qr_string : Option String
  pub gateway_response : Option String
  pub webhook_payload : Option String
  pub expires_at : Option ℕ
  pub paid_at : Option ℕ
  pub created_at : ℕ
  pub updated_at : ℕ
