-- ===== src/Order/Creation.antt =====
-- How an order comes to be (internal/service/order_service.go, Create and CreateFromTransaction).
use service_api.Base.{
  ℕ, ◌≡◌, inl, inr, ◌∙◌, ap, refl, ◌&&◌, Option, none, some, List, [], ◌∷◌, ◌++◌, String, arith,
  Option-cases, Bool-cases, ◌==◌, find_where, find_where-snoc,
}
use service_api.Apperror.{ok}
use service_api.Domain.Orders.{received, Order, CreateOrderRequest}
use service_api.Domain.Transactions.{TxUpload}
use service_api.Domain.Users.{User}
use service_api.External.{External}
use service_api.Inventory.{optional_text}
use service_api.Store.{World, fails, rest, ◌>>=◌, >>=-eq-ok}
use service_api.Order.Rows.{
  has_id, has_transaction, find_order, Call, created_order, uploaded_order, initial_log,
  user_exists,
}
use service_api.Order.Writes.{insert_received, create, create_from_transaction, parse_transaction}

insert_received_exact :
    (c : Call) (user_id : ℕ) (notes : Option String) (o : Order) (w : World) {r : Order}
    → o.id ≡ c.new_id
    → find_order c.new_id w.tables ≡ none
    → (insert_received c user_id notes o w).0 ≡ ok r
    → let t = (insert_received c user_id notes o w).1.tables in
      (r ≡ o)
      × (find_order c.new_id t ≡ some r)
      × (t.orders ≡ w.tables.orders ++ r ∷ [])
      × (t.order_status_logs ≡ w.tables.order_status_logs ++ initial_log c user_id notes ∷ [])
unfolding insert_received
insert_received_exact c user_id notes o w {r} same fresh h =
    ground (arith, find_where-snoc (has_id c.new_id) w.tables.orders o fresh)

parse_transaction_world :
    (ext : External) (s : Option String) (w : World) → (parse_transaction ext s w).1 ≡ w
parse_transaction_world ext none w = refl
parse_transaction_world ext (some s) w = ground arith

-- When Create succeeds with a new id, the order that it returns is `received`, belongs to the tenant
-- and to the user who made it, and is the row that is found under its id; it is the last row, and
-- the last entry of the log is its arrival.
pub create_exact :
    (ext : External) (c : Call) (tenant_id user_id : ℕ) (req : CreateOrderRequest) (w : World)
    {r : Order}
    → find_order c.new_id w.tables ≡ none
    → (create ext c tenant_id user_id req w).0 ≡ ok r
    → let t = (create ext c tenant_id user_id req w).1.tables in
      (r.status ≡ received)
      × (r.tenant_id ≡ tenant_id)
      × (r.created_by ≡ user_id)
      × (find_order c.new_id t ≡ some r)
      × (t.orders ≡ w.tables.orders ++ r ∷ [])
      × (t.order_status_logs ≡ w.tables.order_status_logs ++ initial_log c user_id r.notes ∷ [])
unfolding create insert_received
create_exact ext c tenant_id user_id req w {r} fresh h =
    elim (Option-cases (ext.parse_uuid req.outlet_id)) [
      | inl bad ↦ ground arith
      | inr (outlet, good) ↦
          let next = λ (tx : Option ℕ).
            insert_received c user_id (optional_text req.notes)
              (created_order ext c tenant_id user_id outlet tx req) in
          let run = parse_transaction ext req.transaction_id >>= next in
          let same : create ext c tenant_id user_id req w ≡ run w = rw good in
          let (tx, got, ran) =
            >>=-eq-ok (parse_transaction ext req.transaction_id) next w {b = r} (rw same at h) in
          let e : create ext c tenant_id user_id req w ≡ next tx w =
            same ∙ ran ∙ ap (next tx) (parse_transaction_world ext req.transaction_id w) in
          let all =
            insert_received_exact c user_id (optional_text req.notes)
              (created_order ext c tenant_id user_id outlet tx req) w {r = r} refl fresh
              (rw e at h) in
          rw e (ground (arith, all))
    ]

fresh_at :
    (id now : ℕ) (xs : List Order)
    → find_where (has_id id) xs ≡ none
    → find_where (λ p. p.id == id && p.created_at == now) xs ≡ none
unfolding find_where
fresh_at id now [] h = refl
fresh_at id now (x ∷ xs) h = elim (Bool-cases (x.id == id)) [
  | inl e ↦ ground arith
  | inr e ↦ rw e (fresh_at id now xs (rw e at h))
]

-- Where the statements run, CreateFromTransaction makes an order of a transaction that has none,
-- with the first entry of its log.
pub create_from_transaction_new :
    (ext : External) (c : Call) (tenant_id user_id : ℕ) (tx : TxUpload) (w : World) {u : User}
    → w.script ≡ []
    → user_exists user_id w.tables ≡ some u
    → find_order c.new_id w.tables ≡ none
    → find_where (has_transaction tx.row.id) w.tables.orders ≡ none
    → let (r, w') = create_from_transaction ext c tenant_id user_id tx w in
      (r ≡ ok tt)
      × (w'.tables.orders ≡ w.tables.orders ++ uploaded_order ext c tenant_id user_id tx ∷ [])
      × (w'.tables.order_status_logs
          ≡ w.tables.order_status_logs ++ initial_log c user_id none ∷ [])
unfolding create_from_transaction fails rest
create_from_transaction_new ext c tenant_id user_id tx w quiet known fresh first =
    let o = uploaded_order ext c tenant_id user_id tx in
    ground (
      arith,
      find_where-snoc (has_id c.new_id) w.tables.orders o fresh,
      find_where-snoc (λ p. p.id == c.new_id && p.created_at == c.now) w.tables.orders o
          (fresh_at c.new_id c.now w.tables.orders fresh),
    )

-- A transaction that has an order gets no second one: CreateFromTransaction changes no row, however
-- its statements fail. So an upload that is sent again makes no new order.
pub create_from_transaction_again :
    (ext : External) (c : Call) (tenant_id user_id : ℕ) (tx : TxUpload) (w : World) {o : Order}
    → find_where (has_transaction tx.row.id) w.tables.orders ≡ some o
    → find_where (λ p. p.id == c.new_id && p.created_at == c.now) w.tables.orders ≡ none
    → (create_from_transaction ext c tenant_id user_id tx w).1.tables ≡ w.tables
unfolding create_from_transaction
create_from_transaction_again ext c tenant_id user_id tx w there fresh = ground arith
