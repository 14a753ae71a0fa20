-- ===== src/Order/System.antt =====
-- All that can happen to the table of orders, as steps, and what every sequence of them keeps
-- (internal/service/order_service.go).
use service_api.Base.{
  ℕ, ◌+◌, ◌≤◌, ◌≡◌, ◌⊎◌, inl, inr, refl, Bool, Option, none, some, List, [], ◌∷◌, ◌++◌, String,
  arith, Option-cases, Bool-cases, str_eq, find_where, if◌then◌else◌, count_where,
  count_where-append, count_where-update_where_le,
}
use service_api.Apperror.{AppError, ok, err, validation}
use service_api.Domain.Orders.{Order, CreateOrderRequest}
use service_api.Domain.Transactions.{TxUpload}
use service_api.External.{External}
use service_api.Store.{World, Tables, rest}
use service_api.Inventory.{optional_text}
use service_api.Order.Rows.{
  has_transaction, has_id, find_order, Call, created_order, uploaded_order, insert_order,
  with_status,
}
use service_api.Order.Writes.{
  insert_received, create, create_from_transaction, request_pickup, update_status,
  parse_transaction,
}
use service_api.Order.Budget.{Request, update_by, write_status_orders}

-- What the service can do to the database, with whatever ids, clocks and failures.
pub data Step (ext : External) : World → World → Type 0 where
  created :
      (c : Call) (tenant_id user_id : ℕ) (req : CreateOrderRequest) (w : World)
      → Step ext w (create ext c tenant_id user_id req w).1
  uploaded :
      (c : Call) (tenant_id user_id : ℕ) (tx : TxUpload) (w : World)
      → Step ext w (create_from_transaction ext c tenant_id user_id tx w).1
  updated : (id : ℕ) (r : Request) (w : World) → Step ext w (update_by ext id r w).1
  asked : (c : Call) (token : String) (w : World) → Step ext w (request_pickup c token w).1

pub data Reach (ext : External) (w : World) : World → Type 0 where
  here : Reach ext w w
  next : {u v : World} → Reach ext w u → Step ext u v → Reach ext w v

-- No transaction has two orders.
abbrev pub OneOrderPerTransaction : World → Type 0
OneOrderPerTransaction w = (tx : ℕ) → count_where (has_transaction tx) w.tables.orders ≤ 1

count_where-zero :
    (p : Order → Bool) (xs : List Order) → find_where p xs ≡ none → count_where p xs ≡ 0
unfolding find_where count_where
count_where-zero p [] h = refl
count_where-zero p (x ∷ xs) h = elim (Bool-cases (p x)) [
  | inl e ↦ ground arith
  | inr e ↦ let ih = count_where-zero p xs (rw e at h) in ground arith
]

-- Counting one more row.
count_where-snoc :
    (tx : ℕ) (o : Order) (xs : List Order)
    → count_where (has_transaction tx) (xs ++ o ∷ [])
      ≡ count_where (has_transaction tx) xs + (if has_transaction tx o then 1 else 0)
unfolding count_where
count_where-snoc tx o xs = ground (arith, count_where-append (has_transaction tx) xs (o ∷ []))

-- An inserted order, if it has a transaction, is the first of it.
insert_order_keeps :
    (o : Order) (t : Tables) (tx : ℕ)
    → count_where (has_transaction tx) t.orders ≤ 1
    → (insert_order o t ≡ none)
      ⊎ ((insert_order o t ≡ some (tt, record t { orders = t.orders ++ o ∷ [] }))
          × (count_where (has_transaction tx) (t.orders ++ o ∷ []) ≤ 1))
insert_order_keeps o t tx le = elim (Option-cases o.transaction_id) [
  | inl free ↦ ground (arith, count_where-snoc tx o t.orders)
  | inr (own, has) ↦
      ground
        (arith, count_where-snoc tx o t.orders, count_where-zero (has_transaction own) t.orders)
]

insert_received_keeps :
    (c : Call) (user_id : ℕ) (notes : Option String) (o : Order) (w : World) (tx : ℕ)
    → count_where (has_transaction tx) w.tables.orders ≤ 1
    → count_where (has_transaction tx) (insert_received c user_id notes o w).1.tables.orders ≤ 1
unfolding insert_received
insert_received_keeps c user_id notes o w tx le = elim (insert_order_keeps o w.tables tx le) [
  | inl refused ↦ ground arith
  | inr (done, fine) ↦ ground arith
]

parse_transaction_cases :
    (ext : External) (s : Option String) (w : World)
    → ((e : AppError) × (parse_transaction ext s w ≡ (err e, w)))
      ⊎ ((tx : Option ℕ) × (parse_transaction ext s w ≡ (ok tx, w)))
parse_transaction_cases ext none w = inr (none, refl)
parse_transaction_cases ext (some s) w = elim (Bool-cases (str_eq s "")) [
  | inl empty ↦ inr (none, ground arith)
  | inr given ↦ elim (Option-cases (ext.parse_uuid s)) [
    | inl bad ↦ inl (validation "invalid transaction_id", ground arith)
    | inr (t, good) ↦ inr (some t, ground arith)
  ]
]

create_keeps :
    (ext : External) (c : Call) (tenant_id user_id : ℕ) (req : CreateOrderRequest) (w : World)
    (tx : ℕ)
    → count_where (has_transaction tx) w.tables.orders ≤ 1
    → count_where (has_transaction tx) (create ext c tenant_id user_id req w).1.tables.orders ≤ 1
unfolding create
create_keeps ext c tenant_id user_id req w tx le =
    elim (Option-cases (ext.parse_uuid req.outlet_id)) [
      | inl bad ↦ ground arith
      | inr (outlet, good) ↦ elim (parse_transaction_cases ext req.transaction_id w) [
        | inl (e, failed) ↦ ground arith
        | inr (linked, parsed) ↦ ground (
          arith,
          insert_received_keeps c user_id (optional_text req.notes)
              (created_order ext c tenant_id user_id outlet linked req) w tx le,
        )
      ]
    ]

pub create_from_transaction_keeps :
    (ext : External) (c : Call) (tenant_id user_id : ℕ) (up : TxUpload) (w : World) (tx : ℕ)
    → count_where (has_transaction tx) w.tables.orders ≤ 1
    → count_where
        (has_transaction tx)
        (create_from_transaction ext c tenant_id user_id up w).1.tables.orders
      ≤ 1
unfolding create_from_transaction
create_from_transaction_keeps ext c tenant_id user_id up w tx le =
    let o = uploaded_order ext c tenant_id user_id up in
    ground (
      arith,
      count_where-snoc tx o w.tables.orders,
      count_where-zero (has_transaction up.row.id) w.tables.orders,
    )

update_keeps :
    (ext : External) (id : ℕ) (r : Request) (w : World) (tx : ℕ)
    → count_where (has_transaction tx) w.tables.orders ≤ 1
    → count_where (has_transaction tx) (update_by ext id r w).1.tables.orders ≤ 1
unfolding update_status
update_keeps ext id r w tx le = elim (Option-cases (find_order id w.tables)) [
  | inl missing ↦ ground arith
  | inr (o, found) ↦
      let f = with_status r.call.now r.user_id r.body.status in
      ground (
        arith,
        write_status_orders ext id r o (record w { script = rest w.script }),
        count_where-update_where_le (has_id id) (has_transaction tx) f w.tables.orders (λ y k h. h),
      )
]

pickup_keeps :
    (c : Call) (token : String) (w : World) (tx : ℕ)
    → count_where (has_transaction tx) w.tables.orders ≤ 1
    → count_where (has_transaction tx) (request_pickup c token w).1.tables.orders ≤ 1
unfolding request_pickup
pickup_keeps c token w tx le = ground arith

Step-OneOrderPerTransaction :
    {ext : External} {u v : World}
    → Step ext u v
    → OneOrderPerTransaction u
    → OneOrderPerTransaction v
Step-OneOrderPerTransaction {ext} (created c tenant_id user_id req w) h tx =
    create_keeps ext c tenant_id user_id req w tx (h tx)
Step-OneOrderPerTransaction {ext} (uploaded c tenant_id user_id up w) h tx =
    create_from_transaction_keeps ext c tenant_id user_id up w tx (h tx)
Step-OneOrderPerTransaction {ext} (updated id r w) h tx = update_keeps ext id r w tx (h tx)
Step-OneOrderPerTransaction (asked c token w) h tx = pickup_keeps c token w tx (h tx)

-- Whatever calls are made in whatever order, and whichever statements fail, no transaction comes to
-- have two orders.
pub Reach-OneOrderPerTransaction :
    (ext : External) {u v : World}
    → Reach ext u v
    → OneOrderPerTransaction u
    → OneOrderPerTransaction v
Reach-OneOrderPerTransaction ext here h = h
Reach-OneOrderPerTransaction ext (next r s) h =
    Step-OneOrderPerTransaction s (Reach-OneOrderPerTransaction ext r h)
