-- ===== src/Gateway/Callback.antt =====
-- What the webhook answers and what it changes (internal/service/gateway_service.go, ProcessWebhook).
use service_api.Base.{
  ℕ, ◌≡◌, ◌⊎◌, true, false, Option, none, some, [], String, arith, str_eq, str_eq_refl, starts_with,
  if◌then◌else◌, find_where-update_where, find_where-update_where_cases,
}
use service_api.Apperror.{Result, ok, err, unauthorized}
use service_api.Domain.Payments.{GatewayStatus, GatewayPayment}
use service_api.External.{External}
use service_api.Store.{World, Tables, fails, rest}
use service_api.Gateway.Status.{is_final, map_xendit_status, has_external_id, find_payment}
use service_api.Gateway.Config.{Gateway}
use service_api.Gateway.Webhook.{
  WebhookData, resolve_external_id, paid_time, settle, settle_row, settle_in_transaction,
  handle_webhook, process_webhook,
}

-- A settlement in a transaction returns success; it changes the rows as a whole or not at all.
pub settle_in_transaction_atomic :
    (f : Tables → Tables) (w : World)
    → ((settle_in_transaction f w).0 ≡ ok tt)
      × (((settle_in_transaction f w).1.tables ≡ w.tables)
          ⊎ ((settle_in_transaction f w).1.tables ≡ f w.tables))
unfolding settle_in_transaction
settle_in_transaction_atomic f w = ground arith

-- What the token alone makes of a webhook.
abbrev pub token_reply : String → String → Result (Unit {0})
token_reply configured given =
    if str_eq configured ""
    then err (unauthorized "webhook not configured")
    else if str_eq given configured
    then ok tt
    else err (unauthorized "invalid callback token")

-- The answer depends on the token alone: 401 where none is configured or another one is sent, and
-- success otherwise, whatever the payload holds and whichever statements fail. No row changes on 401.
pub process_webhook_reply :
    (ext : External) (g : Gateway) (now : ℕ) (token : String) (d : Option WebhookData) (w : World)
    → let (r, w') = process_webhook ext g now token d w in
      (r ≡ token_reply g.webhook_token token) × ((r ≡ ok tt) ⊎ (w'.tables ≡ w.tables))
unfolding process_webhook handle_webhook
process_webhook_reply ext g now token none w = ground arith
process_webhook_reply ext g now token (some d) w =
    let x = resolve_external_id d in
    let s = map_xendit_status d.status in
    ground (
      arith,
      settle_in_transaction_atomic
          (settle_row x (settle now s (paid_time ext now s d.paid_at) d.payload)) w,
    )

-- So the tables after a webhook are the old ones, or those with one row settled.
pub process_webhook_rows :
    (ext : External) (g : Gateway) (now : ℕ) (token : String) (d : WebhookData) (w : World)
    → let s = map_xendit_status d.status in
      let f = settle now s (paid_time ext now s d.paid_at) d.payload in
      let w' = (process_webhook ext g now token (some d) w).1 in
      (w'.tables ≡ w.tables) ⊎ (w'.tables ≡ settle_row (resolve_external_id d) f w.tables)
unfolding process_webhook handle_webhook
process_webhook_rows ext g now token d w =
    let x = resolve_external_id d in
    let s = map_xendit_status d.status in
    ground (
      arith,
      settle_in_transaction_atomic
          (settle_row x (settle now s (paid_time ext now s d.paid_at) d.payload)) w,
    )

-- A payment whose status is final keeps its whole row through every webhook.
pub process_webhook_final :
    (ext : External) (g : Gateway) (now : ℕ) (token : String) (d : WebhookData) (w : World)
    (x : String) {p : GatewayPayment}
    → find_payment x w.tables ≡ some p
    → is_final p.gateway_status ≡ true
    → find_payment x (process_webhook ext g now token (some d) w).1.tables ≡ some p
unfolding settle
process_webhook_final ext g now token d w x {p} found final =
    let s = map_xendit_status d.status in
    let f = settle now s (paid_time ext now s d.paid_at) d.payload in
    ground (
      arith,
      process_webhook_rows ext g now token d w,
      find_where-update_where_cases (has_external_id (resolve_external_id d)) (has_external_id x) f
          w.tables.gateway_payments (settle_id x now s (paid_time ext now s d.paid_at) d.payload)
          found,
    )
  where
    settle_id :
        (x : String) (now : ℕ) (s : GatewayStatus) (at : Option ℕ) (payload : String)
        (y : GatewayPayment)
        → has_external_id x (settle now s at payload y) ≡ has_external_id x y
    settle_id x now s at payload y = ground arith

-- Where the statements run, an authentic webhook for one of the service's own payments that is not
-- final settles the row with its id.
pub process_webhook_row :
    (ext : External) (g : Gateway) (now : ℕ) (d : WebhookData) (w : World) {p : GatewayPayment}
    → w.script ≡ []
    → str_eq g.webhook_token "" ≡ false
    → str_eq (resolve_external_id d) "" ≡ false
    → str_eq d.status "" ≡ false
    → starts_with (resolve_external_id d) "lpos-" ≡ true
    → find_payment (resolve_external_id d) w.tables ≡ some p
    → is_final p.gateway_status ≡ false
    → let s = map_xendit_status d.status in
      let t = (process_webhook ext g now g.webhook_token (some d) w).1.tables in
      find_payment (resolve_external_id d) t
      ≡ some (record p {
        gateway_status = s;
        paid_at = elim (paid_time ext now s d.paid_at) [ none ↦ p.paid_at | some at ↦ some at ];
        webhook_payload = some d.payload;
        updated_at = now;
      })
unfolding process_webhook handle_webhook settle_in_transaction settle fails rest
process_webhook_row ext g now d w {p} quiet set own stated ours found open' =
    let s = map_xendit_status d.status in
    let f = settle now s (paid_time ext now s d.paid_at) d.payload in
    ground (
      arith,
      str_eq_refl g.webhook_token,
      find_where-update_where (has_external_id (resolve_external_id d)) f w.tables.gateway_payments
          (settle_id now s (paid_time ext now s d.paid_at) d.payload) found,
    )
  where
    settle_id :
        (now : ℕ) (s : GatewayStatus) (at : Option ℕ) (payload : String) (y : GatewayPayment)
        → has_external_id (resolve_external_id d) y ≡ true
        → has_external_id (resolve_external_id d) (settle now s at payload y) ≡ true
    settle_id now s at payload y h = ground arith
