-- ===== src/Gateway/Race.antt =====
-- The till and the webhook at once: the parts of CreateGatewayPayment and the webhooks as steps that
-- come in any order (internal/service/gateway_service.go).
use service_api.Base.{
  ℕ, ◌≡◌, ◌⊎◌, inl, inr, refl, true, false, Option, none, some, [], ◌∷◌, ◌++◌, String, arith,
  str_eq, str_eq_iff, find_where-append_row, find_where-update_where_cases,
  find_where-update_where_other, Option-cases, Bool-cases,
}
use service_api.Domain.Payments.{GatewayStatus, paid, GatewayPayment}
use service_api.External.{External}
use service_api.Store.{World, Tables}
use service_api.Gateway.Status.{is_final, has_external_id, find_payment, is_gateway_type}
use service_api.Gateway.Config.{Gateway}
use service_api.Gateway.Create.{
  CreateGatewayPaymentRequest, Answer, reserve_payment, store_payment, activate_payment, activate,
  retry_payment, upsert_payment, update_payment, external_id_of, new_payment,
}
use service_api.Gateway.Webhook.{WebhookData, process_webhook}
use service_api.Gateway.Callback.{process_webhook_final}

-- One part of a call, of any session, with whatever ids, clocks, answers and failures.
pub data Step (ext : External) (g : Gateway) : World → World → Type 0 where
  reserved :
      (new_id now tenant_id : ℕ) (req : CreateGatewayPaymentRequest) (w : World)
      → Step ext g w (reserve_payment ext new_id now tenant_id req w).1
  activated :
      (now : ℕ) (x : String) (a : Answer) (w : World) → Step ext g w (activate_payment now x a w).1
  reported :
      (now : ℕ) (token : String) (d : WebhookData) (w : World)
      → Step ext g w (process_webhook ext g now token (some d) w).1

pub data Reach (ext : External) (g : Gateway) (w : World) : World → Type 0 where
  here : Reach ext g w w
  next : {u v : World} → Reach ext g w u → Step ext g u v → Reach ext g w v

-- The time at which a payment was made, if it is paid.
abbrev pub payment_time : GatewayStatus → Option ℕ → Option (Option ℕ)
payment_time paid at = some at
payment_time _ at = none

abbrev pub paid_row : Option GatewayPayment → Option (Option ℕ)
paid_row none = none
paid_row (some p) = payment_time p.gateway_status p.paid_at

paid_found :
    (o : Option GatewayPayment) {at : Option ℕ}
    → paid_row o ≡ some at
    → (p : GatewayPayment) × (o ≡ some p) × (payment_time p.gateway_status p.paid_at ≡ some at)
paid_found none h = cc
paid_found (some p) h = (p, refl, h)

retry_time :
    (now : ℕ) (p : GatewayPayment) {at : Option ℕ}
    → payment_time p.gateway_status p.paid_at ≡ some at
    → payment_time (retry_payment now p).gateway_status (retry_payment now p).paid_at ≡ some at
unfolding retry_payment
retry_time now p h = ground arith

retry_id :
    (x : String) (now : ℕ) (y : GatewayPayment)
    → has_external_id x (retry_payment now y) ≡ has_external_id x y
unfolding retry_payment
retry_id x now y = ground arith

-- The upsert fails, or leaves a paid payment paid.
upsert_keeps :
    (now : ℕ) (q : GatewayPayment) (t : Tables) (x : String) {at : Option ℕ}
    → paid_row (find_payment x t) ≡ some at
    → (upsert_payment now q t ≡ none)
      ⊎ ((r : GatewayPayment × Tables) × (upsert_payment now q t ≡ some r)
          × (paid_row (find_payment x r.1) ≡ some at))
upsert_keeps now q t x {at} h =
    let (p, found, time) = paid_found (find_payment x t) {at = at} h in
    elim (Bool-cases (is_gateway_type q.gateway_type)) [
      | inl known ↦ elim (Option-cases (find_payment q.external_id t)) [
        | inl fresh ↦ inr (
          (q, record t { gateway_payments = t.gateway_payments ++ q ∷ [] }),
          rw (known, fresh),
          rw (find_where-append_row (has_external_id x) t.gateway_payments q found) time,
        )
        | inr (old, there) ↦ inr (
          (retry_payment now old, update_payment q.external_id (retry_payment now) t),
          rw (known, there),
          elim (find_where-update_where_cases (has_external_id q.external_id) (has_external_id x)
              (retry_payment now) t.gateway_payments (retry_id x now) found) [
                | inl same ↦ rw same time
                | inr new ↦ rw new (retry_time now p time)
              ],
        )
      ]
      | inr unknown ↦ inl (rw unknown)
    ]

-- The step of a reservation on a paid payment.
reserve_keeps :
    (ext : External) (new_id now tenant_id : ℕ) (req : CreateGatewayPaymentRequest) (w : World)
    (x : String) {at : Option ℕ}
    → paid_row (find_payment x w.tables) ≡ some at
    → paid_row (find_payment x (reserve_payment ext new_id now tenant_id req w).1.tables) ≡ some at
unfolding reserve_payment store_payment
reserve_keeps ext new_id now tenant_id req w x {at} h =
    elim (Option-cases (ext.parse_uuid req.transaction_id)) [
      | inl bad ↦ ground arith
      | inr (tx, good) ↦ elim (Option-cases (ext.parse_uuid req.payment_item_id)) [
        | inl bad ↦ ground arith
        | inr (item, fine) ↦
            let q = new_payment new_id now tenant_id tx item (external_id_of ext item) req in
            elim (upsert_keeps now q w.tables x h) [
              | inl refused ↦ ground arith
              | inr (r, stored, kept) ↦ ground arith
            ]
      ]
    ]

-- An activation writes only to a pending payment.
activate_keeps :
    (now : ℕ) (y : String) (a : Answer) (w : World) (x : String) {at : Option ℕ}
    → paid_row (find_payment x w.tables) ≡ some at
    → paid_row (find_payment x (activate_payment now y a w).1.tables) ≡ some at
unfolding activate_payment
activate_keeps now y a w x {at} h =
    let (p, found, time) = paid_found (find_payment x w.tables) {at = at} h in
    elim (Bool-cases (str_eq x y)) [
      | inl same ↦
          let e : x ≡ y = (str_eq_iff x y).0 same in
          let found' : find_payment y w.tables ≡ some p = rw e at found in rw e (ground arith)
      | inr ne ↦ ground (
        arith,
        find_where-update_where_other (has_external_id y) (has_external_id x) (activate now a)
            w.tables.gateway_payments (λ q k. (apart ne q k, apart ne q k)),
      )
    ]
  where
    apart :
        (ne : str_eq x y ≡ false) (q : GatewayPayment)
        → has_external_id y q ≡ true
        → has_external_id x q ≡ false
    apart ne q k =
        let e : q.external_id ≡ y = (str_eq_iff q.external_id y).0 k in
        ground (arith, str_eq_iff q.external_id x, str_eq_iff x y)

-- A webhook settles no payment that is final.
webhook_keeps :
    (ext : External) (g : Gateway) (now : ℕ) (token : String) (d : WebhookData) (w : World)
    (x : String) {at : Option ℕ}
    → paid_row (find_payment x w.tables) ≡ some at
    → paid_row (find_payment x (process_webhook ext g now token (some d) w).1.tables) ≡ some at
unfolding is_final
webhook_keeps ext g now token d w x {at} h =
    let (p, found, time) = paid_found (find_payment x w.tables) {at = at} h in
    rw
      (process_webhook_final ext g now token d w x found
        (paid_final p.gateway_status p.paid_at time))
      time
  where
    paid_final : (s : GatewayStatus) (o : Option ℕ) → payment_time s o ≡ some at → is_final s ≡ true
    paid_final s o e = ground arith

-- Once a payment is PAID it stays so, with its time, whatever the tills and the gateway send
-- afterwards and in whatever order the parts of their calls run.
pub Reach-paid :
    (ext : External) (g : Gateway) {u v : World} (x : String) {at : Option ℕ}
    → Reach ext g u v
    → paid_row (find_payment x u.tables) ≡ some at
    → paid_row (find_payment x v.tables) ≡ some at
Reach-paid ext g x here h = h
Reach-paid ext g x {at} (next r (reserved new_id now tenant_id req w)) h =
    reserve_keeps ext new_id now tenant_id req w x (Reach-paid ext g x r h)
Reach-paid ext g x (next r (activated now y a w)) h =
    activate_keeps now y a w x (Reach-paid ext g x r h)
Reach-paid ext g x (next r (reported now token d w)) h =
    webhook_keeps ext g now token d w x (Reach-paid ext g x r h)
