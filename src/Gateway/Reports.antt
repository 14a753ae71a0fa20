-- ===== src/Gateway/Reports.antt =====
-- What the reports of the gateway mean, independently of the code's table, and that the webhook does
-- as they say (internal/service/gateway_service.go, ProcessWebhook).
use service_api.Base.{
  ℕ, ◌≡◌, ◌≢◌, ◌⊎◌, ◌∙◌, inl, inr, refl, ap, sym, arith, true, false, none, some, List, [], ◌∷◌,
  String, str_eq, str_eq_iff, starts_with, Bool-cases, Option-cases, All,
  find_where-update_where_other,
}
use service_api.Domain.Payments.{
  GatewayStatus, pending, active, paid, expired, failed, cancelled, GatewayPayment,
}
use service_api.External.{External}
use service_api.Store.{World}
use service_api.Gateway.Status.{is_final, map_xendit_status, has_external_id, find_payment}
use service_api.Gateway.Config.{Gateway}
use service_api.Gateway.Webhook.{
  WebhookData, resolve_external_id, paid_time, settle, process_webhook,
}
use service_api.Gateway.Callback.{process_webhook_row, process_webhook_rows}

-- The texts that have a meaning.
abbrev known_texts : List String
known_texts =
    "COMPLETED" ∷ "PAID" ∷ "SUCCEEDED" ∷ "PENDING" ∷ "ACTIVE" ∷ "EXPIRED" ∷ "FAILED" ∷ "CANCELLED"
    ∷ []

-- The status that a reported text stands for. Three texts report a payment; one that has no meaning
-- counts as pending.
pub data Reported : String → GatewayStatus → Type 0 where
  completed_text : Reported "COMPLETED" paid
  paid_text : Reported "PAID" paid
  succeeded_text : Reported "SUCCEEDED" paid
  pending_text : Reported "PENDING" pending
  active_text : Reported "ACTIVE" active
  expired_text : Reported "EXPIRED" expired
  failed_text : Reported "FAILED" failed
  cancelled_text : Reported "CANCELLED" cancelled
  unknown_text : (s : String) → All (λ t. s ≢ t) known_texts → Reported s pending

differs : (s t : String) → str_eq s t ≡ false → s ≢ t
differs s t h same = let yes = (str_eq_iff s t).1 same in ground arith

at_text :
    (s t : String)
    → Reported t (map_xendit_status t)
    → str_eq s t ≡ true
    → Reported s (map_xendit_status s)
at_text s t meaning h = rw ((str_eq_iff s t).0 h) meaning

map_xendit_status-Reported : (s : String) → Reported s (map_xendit_status s)
unfolding map_xendit_status
map_xendit_status-Reported s = elim (Bool-cases (str_eq s "COMPLETED")) [
  | inl e ↦ at_text s "COMPLETED" completed_text e
  | inr n0 ↦ elim (Bool-cases (str_eq s "PAID")) [
    | inl e ↦ at_text s "PAID" paid_text e
    | inr n1 ↦ elim (Bool-cases (str_eq s "SUCCEEDED")) [
      | inl e ↦ at_text s "SUCCEEDED" succeeded_text e
      | inr n2 ↦ elim (Bool-cases (str_eq s "PENDING")) [
        | inl e ↦ at_text s "PENDING" pending_text e
        | inr n3 ↦ elim (Bool-cases (str_eq s "ACTIVE")) [
          | inl e ↦ at_text s "ACTIVE" active_text e
          | inr n4 ↦ elim (Bool-cases (str_eq s "EXPIRED")) [
            | inl e ↦ at_text s "EXPIRED" expired_text e
            | inr n5 ↦ elim (Bool-cases (str_eq s "FAILED")) [
              | inl e ↦ at_text s "FAILED" failed_text e
              | inr n6 ↦ elim (Bool-cases (str_eq s "CANCELLED")) [
                | inl e ↦ at_text s "CANCELLED" cancelled_text e
                | inr n7 ↦
                    let other : map_xendit_status s ≡ pending = ground arith in
                    rw other (
                      unknown_text s (
                        differs s "COMPLETED" n0,
                        (
                          differs s "PAID" n1,
                          (
                            differs s "SUCCEEDED" n2,
                            (
                              differs s "PENDING" n3,
                              (
                                differs s "ACTIVE" n4,
                                (
                                  differs s "EXPIRED" n5,
                                  (differs s "FAILED" n6, (differs s "CANCELLED" n7, tt)),
                                ),
                              ),
                            ),
                          ),
                        ),
                      ))
              ]
            ]
          ]
        ]
      ]
    ]
  ]
]

-- The time of a payment: the reported one, or, where that is no time, the clock's; any other status
-- leaves the time as it was.
abbrev pub DatedBy : External → ℕ → WebhookData → GatewayPayment → GatewayPayment → Type 0
DatedBy ext now d p p' =
    ((p'.gateway_status ≡ paid)
      × ((t : ℕ) × ((ext.parse_time d.paid_at ≡ some t)
            ⊎ ((ext.parse_time d.paid_at ≡ none) × (t ≡ now)))
          × (p'.paid_at ≡ some t)))
    ⊎ ((p'.gateway_status ≢ paid) × (p'.paid_at ≡ p.paid_at))

-- Where the statements run, an authentic webhook for one of the service's own payments that is not
-- final gives the payment the status that the reported text stands for, and, where that is PAID, the
-- time of payment. The payload is kept, no other field of the row changes, and neither does any
-- payment with another id.
pub process_webhook_settles :
    (ext : External) (g : Gateway) (now : ℕ) (d : WebhookData) (w : World) (other : String)
    {p : GatewayPayment}
    → w.script ≡ []
    → str_eq g.webhook_token "" ≡ false
    → str_eq (resolve_external_id d) "" ≡ false
    → str_eq d.status "" ≡ false
    → starts_with (resolve_external_id d) "lpos-" ≡ true
    → find_payment (resolve_external_id d) w.tables ≡ some p
    → is_final p.gateway_status ≡ false
    → other ≢ resolve_external_id d
    → let t = (process_webhook ext g now g.webhook_token (some d) w).1.tables in
      (p' : GatewayPayment) × (find_payment (resolve_external_id d) t ≡ some p')
      × Reported d.status p'.gateway_status
      × DatedBy ext now d p p'
      × (p' ≡ record p {
        gateway_status = p'.gateway_status;
        paid_at = p'.paid_at;
        webhook_payload = some d.payload;
        updated_at = now;
      })
      × (find_payment other t ≡ find_payment other w.tables)
unfolding settle
process_webhook_settles ext g now d w other {p} quiet set own stated ours found open' apart =
    let x = resolve_external_id d in
    let s = map_xendit_status d.status in
    let f = settle now s (paid_time ext now s d.paid_at) d.payload in
    let p' : GatewayPayment = record p {
      gateway_status = s;
      paid_at = elim (paid_time ext now s d.paid_at) [ none ↦ p.paid_at | some at ↦ some at ];
      webhook_payload = some d.payload;
      updated_at = now;
    } in
    (
      p',
      process_webhook_row ext g now d w {p = p} quiet set own stated ours found open',
      map_xendit_status-Reported d.status,
      dated s refl,
      refl,
      elim (process_webhook_rows ext g now g.webhook_token d w) [
        | inl same ↦ ap (find_payment other) same
        | inr rows ↦
            ap (find_payment other) rows
            ∙ find_where-update_where_other (has_external_id x) (has_external_id other) f
                w.tables.gateway_payments (λ y at. has_other y at)
      ],
    )
  where
    has_other :
        (y : GatewayPayment)
        → has_external_id (resolve_external_id d) y ≡ true
        → let s = map_xendit_status d.status in
          (has_external_id other y ≡ false)
          × (has_external_id other (settle now s (paid_time ext now s d.paid_at) d.payload y)
              ≡ false)
    has_other y at = elim (Bool-cases (str_eq y.external_id other)) [
      | inl clash ↦
          let one = (str_eq_iff y.external_id other).0 clash in
          let two = (str_eq_iff y.external_id (resolve_external_id d)).0 at in
          elim (apart (sym one ∙ two)) [ ]
      | inr apart_too ↦ (apart_too, ground arith)
    ]

    dated :
        (s : GatewayStatus)
        → map_xendit_status d.status ≡ s
        → DatedBy ext now d p (record p {
          gateway_status = s;
          paid_at = elim (paid_time ext now s d.paid_at) [ none ↦ p.paid_at | some at ↦ some at ];
          webhook_payload = some d.payload;
          updated_at = now;
        })
    dated paid is = elim (Option-cases (ext.parse_time d.paid_at)) [
      | inl unread ↦ inl (refl, (now, inr (unread, refl), ground arith))
      | inr (t, read) ↦ inl (refl, (t, inl read, ground arith))
    ]
    dated pending is = inr ((λ e. ground arith), refl)
    dated active is = inr ((λ e. ground arith), refl)
    dated expired is = inr ((λ e. ground arith), refl)
    dated failed is = inr ((λ e. ground arith), refl)
    dated cancelled is = inr ((λ e. ground arith), refl)
