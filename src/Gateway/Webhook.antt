-- ===== src/Gateway/Webhook.antt =====
-- `ProcessWebhook` of internal/service/gateway_service.go. The payload stands decoded; `none` is
-- one that `json.Unmarshal` refuses.
use service_api.Base.{
  ℕ, Bool, true, false, ◌||◌, not, Option, none, some, String, str_eq, starts_with, if◌then◌else◌,
  update_where,
}
use service_api.Apperror.{unauthorized}
use service_api.Domain.Payments.{GatewayStatus, paid, GatewayPayment}
use service_api.External.{External}
use service_api.Store.{Tables, Db, attempt, pure, raise, branch, case_option, ◌>>=◌}
use service_api.Gateway.Status.{is_final, map_xendit_status, has_external_id}
use service_api.Gateway.Config.{Gateway}

pub record WebhookData : Type 0 where
  pub external_id : String
  pub reference_id : String
  pub status : String
  pub paid_at : String
  pub qr_external_id : Option String
  pub payload : String

-- The id of a QR code's webhook comes first, then that of an invoice, then the reference.
unfoldable pub resolve_external_id : WebhookData → String
resolve_external_id d =
    let qr : String = elim d.qr_external_id [ none ↦ "" | some x ↦ x ] in
    let x = if str_eq qr "" then d.external_id else qr in if str_eq x "" then d.reference_id else x

abbrev is_paid : GatewayStatus → Bool
is_paid paid = true
is_paid _ = false

-- The time of payment: as reported, else now; NULL for any other status.
abbrev pub paid_time : External → ℕ → GatewayStatus → String → Option ℕ
paid_time ext now s reported =
    if is_paid s then elim (ext.parse_time reported) [ none ↦ some now | some t ↦ some t ] else none

-- `SET gateway_status = $1, paid_at = COALESCE($2, paid_at), webhook_payload = $3, updated_at = $4`
-- `WHERE gateway_status NOT IN (...)`, on a row.
unfoldable pub settle : ℕ → GatewayStatus → Option ℕ → String → GatewayPayment → GatewayPayment
unfolding is_final
settle now s at payload p = if is_final p.gateway_status then p else record p {
  gateway_status = s;
  paid_at = elim at [ none ↦ p.paid_at | some t ↦ some t ];
  webhook_payload = some payload;
  updated_at = now;
}

abbrev pub settle_row : String → (GatewayPayment → GatewayPayment) → Tables → Tables
settle_row x f t = record t {
  gateway_payments = update_where (has_external_id x) f t.gateway_payments;
}

abbrev statement : (Tables → Tables) → Db (Option (Unit {0}))
statement f = attempt (λ t. some (tt, f t))

-- The transaction: a connection, BEGIN, the session's role, the UPDATE, COMMIT. A failure of any
-- ends it with no row changed, and is not reported.
unfoldable pub settle_in_transaction : (Tables → Tables) → Db (Unit {0})
settle_in_transaction f w =
    (do
      acquired ← statement (λ t. t)
      case_option acquired (pure tt) (λ _. do
        begun ← statement (λ t. t)
        case_option begun (pure tt) (λ _. do
          role ← statement (λ t. t)
          case_option role (pure tt) (λ _. do
            updated ← statement f
            case_option updated (pure tt) (λ _. do
              committed ← statement (λ t. t)
              case_option committed (λ w'. pure tt (record w' { tables = w.tables }))
                  (λ _. pure tt))))))
      w

-- What follows the check of the token.
unfoldable pub handle_webhook : External → ℕ → Option WebhookData → Db (Unit {0})
handle_webhook ext now none = pure tt
handle_webhook ext now (some d) =
    let x = resolve_external_id d in
    let s = map_xendit_status d.status in
    branch (str_eq x "" || str_eq d.status "" || not (starts_with x "lpos-")) (pure tt) (
      settle_in_transaction (settle_row x (settle now s (paid_time ext now s d.paid_at) d.payload)))

-- `ProcessWebhook`
unfoldable pub process_webhook :
    External → Gateway → ℕ → String → Option WebhookData → Db (Unit {0})
process_webhook ext g now callback_token data' =
    branch (str_eq g.webhook_token "") (raise (unauthorized "webhook not configured")) (
      branch (str_eq callback_token g.webhook_token) (handle_webhook ext now data')
        (raise (unauthorized "invalid callback token")))
