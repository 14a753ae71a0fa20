-- ===== src/Gateway/Status.antt =====
-- `isFinalStatus`, `mapXenditStatus`, `mapGatewayTypeToPaymentMethods` and `GetPaymentStatus` of
-- internal/service/gateway_service.go.
use service_api.Base.{
  ℕ, Bool, true, false, ◌&&◌, ◌||◌, Option, List, [], ◌∷◌, String, str_eq, if◌then◌else◌,
  find_where, ◌==◌,
}
use service_api.Apperror.{not_found, internal}
use service_api.Domain.Payments.{
  GatewayStatus, pending, active, paid, expired, failed, cancelled, GatewayPayment,
}
use service_api.Store.{Tables, Db, query_row, pure, ◌>>=◌}

-- `isFinalStatus`
unfoldable pub is_final : GatewayStatus → Bool
is_final paid = true
is_final expired = true
is_final failed = true
is_final cancelled = true
is_final _ = false

-- `mapXenditStatus`: what it does not know becomes PENDING.
unfoldable pub map_xendit_status : String → GatewayStatus
map_xendit_status s =
    if str_eq s "COMPLETED" || str_eq s "PAID" || str_eq s "SUCCEEDED"
    then paid
    else if str_eq s "PENDING"
    then pending
    else if str_eq s "ACTIVE"
    then active
    else if str_eq s "EXPIRED"
    then expired
    else if str_eq s "FAILED"
    then failed
    else if str_eq s "CANCELLED"
    then cancelled
    else pending

-- `mapGatewayTypeToPaymentMethods`
unfoldable pub map_gateway_type : String → List String
map_gateway_type s =
    if str_eq s "qris"
    then "QRIS" ∷ []
    else if str_eq s "virtual_account"
    then "BCA" ∷ "BNI" ∷ "MANDIRI" ∷ "PERMATA" ∷ "BRI" ∷ []
    else if str_eq s "ewallet"
    then "OVO" ∷ "DANA" ∷ "SHOPEEPAY" ∷ "LINKAJA" ∷ []
    else "QRIS" ∷ []

-- The column's CHECK on gateway types.
abbrev pub is_gateway_type : String → Bool
is_gateway_type s = str_eq s "qris" || str_eq s "virtual_account" || str_eq s "ewallet"

abbrev pub has_external_id : String → GatewayPayment → Bool
has_external_id x p = str_eq p.external_id x

abbrev pub find_payment : String → Tables → Option GatewayPayment
find_payment x t = find_where (has_external_id x) t.gateway_payments

pub record PaymentStatus : Type 0 where
  pub external_id : String
  pub gateway_status : GatewayStatus
  pub paid_at : Option ℕ
  pub is_final : Bool

-- `GetPaymentStatus`
unfoldable pub get_payment_status : ℕ → String → Db PaymentStatus
get_payment_status tenant_id x = do
  p ←
      query_row
        (λ t. find_where (λ p. has_external_id x p && p.tenant_id == tenant_id) t.gateway_payments)
        (not_found "gateway payment not found") (internal "failed to get gateway payment status")
  pure (record {
    external_id = p.external_id;
    gateway_status = p.gateway_status;
    paid_at = p.paid_at;
    is_final = is_final p.gateway_status;
  })
