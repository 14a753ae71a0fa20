-- ===== src/Gateway/Payments.antt =====
-- What a till gets back from a request for payment (internal/service/gateway_service.go,
-- CreateGatewayPayment).
use service_api.Base.{
  ℕ, ◌≡◌, inl, inr, ap, refl, Bool, true, false, some, [], String, arith, str_eq_iff, str_eq_refl,
  find_where-snoc, find_where-update_where, find_where_passes, Option-cases,
}
use service_api.Apperror.{Result, ok, err}
use service_api.Domain.Payments.{GatewayStatus, active, paid, cancelled, GatewayPayment}
use service_api.External.{External}
use service_api.Store.{World, Tables, rest}
use service_api.Gateway.Status.{has_external_id, find_payment}
use service_api.Gateway.Config.{Gateway}
use service_api.Gateway.Create.{
  CreateGatewayPaymentRequest, GatewayPaymentResponse, Answer, reserve_payment, store_payment,
  call_gateway, activate_payment, activate, retry_payment, upsert_payment, external_id_of,
  new_payment, charge, create_gateway_payment, is_pending,
}

-- The upsert returns the row that it stores.
upsert_stored :
    (now : ℕ) (q : GatewayPayment) (t : Tables) {p : GatewayPayment} {t' : Tables}
    → upsert_payment now q t ≡ some (p, t')
    → find_payment p.external_id t' ≡ some p
unfolding retry_payment
upsert_stored now q t {p} {t'} h = elim (Option-cases (find_payment q.external_id t)) [
  | inl fresh ↦ ground (
    arith,
    str_eq_refl q.external_id,
    find_where-snoc (has_external_id q.external_id) t.gateway_payments q fresh,
  )
  | inr (old, there) ↦
      let e : old.external_id ≡ q.external_id =
        (str_eq_iff old.external_id q.external_id).0
          (find_where_passes (has_external_id q.external_id) t.gateway_payments there) in
      ground (
        arith,
        find_where-update_where (has_external_id q.external_id) (retry_payment now)
            t.gateway_payments (λ y k. same y k) there,
      )
]
  where
    same :
        (y : GatewayPayment)
        → has_external_id q.external_id y ≡ true
        → has_external_id q.external_id (retry_payment now y) ≡ true
    same y k = ground arith

-- So does a store that succeeds.
store_stored :
    (now : ℕ) (q : GatewayPayment) (w : World) {p : GatewayPayment}
    → (store_payment now q w).0 ≡ ok p
    → find_payment p.external_id (store_payment now q w).1.tables ≡ some p
unfolding store_payment
store_stored now q w {p} h = elim (Option-cases (upsert_payment now q w.tables)) [
  | inl refused ↦ ground arith
  | inr ((p', t'), stored) ↦ ground (arith, upsert_stored now q w.tables {p = p'} stored)
]

-- And a reservation that succeeds.
reserve_stored :
    (ext : External) (new_id now tenant_id : ℕ) (req : CreateGatewayPaymentRequest) (w : World)
    {p : GatewayPayment}
    → (reserve_payment ext new_id now tenant_id req w).0 ≡ ok p
    → find_payment p.external_id (reserve_payment ext new_id now tenant_id req w).1.tables ≡ some p
unfolding reserve_payment
reserve_stored ext new_id now tenant_id req w {p} h =
    elim (Option-cases (ext.parse_uuid req.transaction_id)) [
      | inl bad ↦ ground arith
      | inr (tx, good) ↦ elim (Option-cases (ext.parse_uuid req.payment_item_id)) [
        | inl bad ↦ ground arith
        | inr (item, fine) ↦ ground (
          arith,
          store_stored now (new_payment new_id now tenant_id tx item (external_id_of ext item) req)
              (record w { script = rest w.script }) {p = p},
        )
      ]
    ]

-- An activation that succeeds returns the row that is stored.
activate_stored :
    (now : ℕ) (x : String) (a : Answer) (w : World) {q : GatewayPayment}
    → (activate_payment now x a w).0 ≡ ok q
    → find_payment q.external_id (activate_payment now x a w).1.tables ≡ some q
unfolding activate_payment
activate_stored now x a w {q} h = elim (Option-cases (find_payment x w.tables)) [
  | inl missing ↦ ground arith
  | inr (p, found) ↦
      let e : p.external_id ≡ x =
        (str_eq_iff p.external_id x).0
          (find_where_passes (has_external_id x) w.tables.gateway_payments found) in
      ground (
        arith,
        find_where-update_where (has_external_id x) (activate now a) w.tables.gateway_payments
            (λ y k. k) found,
      )
]

charge_stored :
    (g : Gateway) (others : Tables → Tables) (now tenant_id : ℕ) (type x : String) (w : World)
    {r : GatewayPaymentResponse}
    → (charge g others now tenant_id type x w).0 ≡ ok r
    → find_payment r.payment.external_id (charge g others now tenant_id type x w).1.tables
      ≡ some r.payment
unfolding charge
charge_stored g others now tenant_id type x w {r} h =
    go (call_gateway g now tenant_id type x w) refl
  where
    go :
        (c : Result Answer × World)
        → call_gateway g now tenant_id type x w ≡ c
        → find_payment r.payment.external_id (charge g others now tenant_id type x w).1.tables
          ≡ some r.payment
    go (err e, w') called = ground arith
    go (ok a, w') called =
        ground
          (arith, activate_stored now x a (record w' { tables = others w'.tables }) {q = r.payment})

-- Whatever other sessions write while the gateway is called, a payment that CreateGatewayPayment
-- returns is, field by field, the row that the table then holds under its external id.
pub create_gateway_payment_stored :
    (ext : External) (g : Gateway) (others : Tables → Tables) (new_id now tenant_id : ℕ)
    (req : CreateGatewayPaymentRequest) (w : World) {r : GatewayPaymentResponse}
    → (create_gateway_payment ext g others new_id now tenant_id req w).0 ≡ ok r
    → find_payment r.payment.external_id
        (create_gateway_payment ext g others new_id now tenant_id req w).1.tables
      ≡ some r.payment
unfolding create_gateway_payment
create_gateway_payment_stored ext g others new_id now tenant_id req w {r} h =
    go (reserve_payment ext new_id now tenant_id req w) refl
  where
    go :
        (c : Result GatewayPayment × World)
        → reserve_payment ext new_id now tenant_id req w ≡ c
        → find_payment r.payment.external_id
            (create_gateway_payment ext g others new_id now tenant_id req w).1.tables
          ≡ some r.payment
    go (err e, w') reserved = ground arith
    go (ok p, w') reserved = ground (
      arith,
      reserve_stored ext new_id now tenant_id req w {p = p},
      charge_stored g others now tenant_id req.gateway_type p.external_id w' {r = r},
    )

abbrev pub is_settled : GatewayStatus → Bool
is_settled active = true
is_settled paid = true
is_settled cancelled = true
is_settled _ = false

reserve_settled :
    (ext : External) (new_id now tenant_id item : ℕ) (req : CreateGatewayPaymentRequest) (w : World)
    {p q : GatewayPayment}
    → ext.parse_uuid req.payment_item_id ≡ some item
    → find_payment (external_id_of ext item) w.tables ≡ some p
    → is_settled p.gateway_status ≡ true
    → (reserve_payment ext new_id now tenant_id req w).0 ≡ ok q
    → q ≡ record p { updated_at = now }
unfolding reserve_payment store_payment retry_payment
reserve_settled ext new_id now tenant_id item req w parsed found settled h =
    elim (Option-cases (ext.parse_uuid req.transaction_id)) [
      | inl bad ↦ ground arith
      | inr (tx, good) ↦ ground arith
    ]

-- A payment that is ACTIVE, PAID or CANCELLED is not charged again: a call that succeeds replies with
-- its row, its status, link, code and times as they were, and the call does the same under every
-- other gateway and whatever that would answer.
pub create_gateway_payment_idempotent :
    (ext : External) (g g' : Gateway) (others others' : Tables → Tables)
    (new_id now tenant_id item : ℕ) (req : CreateGatewayPaymentRequest) (w : World)
    {p : GatewayPayment} {r : GatewayPaymentResponse}
    → ext.parse_uuid req.payment_item_id ≡ some item
    → find_payment (external_id_of ext item) w.tables ≡ some p
    → is_settled p.gateway_status ≡ true
    → (create_gateway_payment ext g others new_id now tenant_id req w).0 ≡ ok r
    → (r ≡ record { payment = record p { updated_at = now }; virtual_accounts = [] })
      × (create_gateway_payment ext g' others' new_id now tenant_id req w
          ≡ create_gateway_payment ext g others new_id now tenant_id req w)
unfolding create_gateway_payment
create_gateway_payment_idempotent ext g g' others others' new_id now tenant_id item req w {p} {r}
      parsed found settled h =
    go (reserve_payment ext new_id now tenant_id req w) refl
  where
    go :
        (c : Result GatewayPayment × World)
        → reserve_payment ext new_id now tenant_id req w ≡ c
        → (r ≡ record { payment = record p { updated_at = now }; virtual_accounts = [] })
          × (create_gateway_payment ext g' others' new_id now tenant_id req w
              ≡ create_gateway_payment ext g others new_id now tenant_id req w)
    go (err e, w') reserved = ground arith
    go (ok q, w') reserved =
        let same : q ≡ record p { updated_at = now } =
          reserve_settled ext new_id now tenant_id item req w {p = p} {q = q} parsed found settled
            (ap (λ (c : Result GatewayPayment × World). c.0) reserved) in
        let still : is_pending q.gateway_status ≡ false = rw same (ground arith) in
        (ground (arith, same), ground arith)
