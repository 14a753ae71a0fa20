-- ===== src/Order/Update.antt =====
-- What `UpdateStatus` does to an order, and how often it can succeed
-- (internal/service/order_service.go, UpdateStatus).
use service_api.Base.{
  ℕ, ◌≡◌, ◌≢◌, ◌⊎◌, inl, inr, ap, Bool, true, false, some, [], ◌∷◌, ◌++◌, String, arith,
  Option-cases, update_where, find_where-update_where, find_where-update_where_other,
}
use service_api.Apperror.{AppError, ok, err, internal}
use service_api.Domain.Orders.{Order, UpdateOrderStatusRequest}
use service_api.External.{External}
use service_api.Store.{World, Tables, rest}
use service_api.Inventory.{deduct_stock_for_order}
use service_api.Inventory.Frame.{deduct_stock_for_order-Harmless}
use service_api.Order.Rows.{has_id, find_order, Call, with_status, status_log, update_order}
use service_api.Order.Writes.{write_status, update_status}
use service_api.Order.Lifecycle.{◌⟶◌, allows-⟶}

-- The deduction leaves the orders and their log alone.
pub deduct_keeps :
    (ext : External) (tenant_id user_id : ℕ) (notes : String) (id : ℕ) (w : World)
    → let (r, w') = deduct_stock_for_order ext tenant_id user_id notes id w in
      (r ≡ ok tt)
      × (w'.tables.orders ≡ w.tables.orders)
      × (w'.tables.order_status_logs ≡ w.tables.order_status_logs)
deduct_keeps ext tenant_id user_id notes id w =
    let (r, (same, more)) = deduct_stock_for_order-Harmless ext tenant_id user_id notes id w in
    (r, ap (λ (t : Tables). t.orders) same, ap (λ (t : Tables). t.order_status_logs) same)

module _ (ext : External) (c : Call) (injected : Bool) (notes : String) (id user_id : ℕ)
    (req : UpdateOrderStatusRequest) where
  -- The writes, once the order is read and the transition is allowed.
  pub write_status_writes :
      (w : World) {o r : Order}
      → find_order id w.tables ≡ some o
      → (write_status ext c injected notes id user_id req o w).0 ≡ ok r
      → let t = (write_status ext c injected notes id user_id req o w).1.tables in
        (r ≡ with_status c.now user_id req.status o)
        × (t.orders ≡ (update_order id (with_status c.now user_id req.status) w.tables).orders)
        × (t.order_status_logs ≡ w.tables.order_status_logs ++ status_log c id user_id o req ∷ [])
  unfolding write_status
  write_status_writes w {o} {r} found h =
      let t = update_order id (with_status c.now user_id req.status) w.tables in
      ground (
        arith,
        deduct_keeps ext o.tenant_id user_id notes o.id (record {
          tables = record t {
            order_status_logs = t.order_status_logs ++ status_log c id user_id o req ∷ [];
          };
          script = rest (rest w.script);
        }),
      )

  -- UpdateStatus succeeds only along a way of the diagram. Then the row of the order, and the order
  -- that it returns, are the old ones with the new status, user and time; one log entry is added
  -- at the end, from the old status to the new; and every other order is as it was.
  pub update_status_exact :
      (j : ℕ) (w : World) {o r : Order}
      → find_order id w.tables ≡ some o
      → id ≢ j
      → (update_status ext c injected notes id user_id req w).0 ≡ ok r
      → let t = (update_status ext c injected notes id user_id req w).1.tables in
        (o.status ⟶ req.status)
        × (r ≡ with_status c.now user_id req.status o)
        × (find_order id t ≡ some r)
        × (find_order j t ≡ find_order j w.tables)
        × (t.order_status_logs ≡ w.tables.order_status_logs ++ status_log c id user_id o req ∷ [])
  unfolding update_status
  update_status_exact j w {o} {r} found ne h =
      let f = with_status c.now user_id req.status in
      ground (
        arith,
        allows-⟶ o.status req.status,
        write_status_writes (record w { script = rest w.script }) {o = o} {r = r} found,
        find_where-update_where (has_id id) f w.tables.orders (λ y k. k) found,
        find_where-update_where_other (has_id id) (has_id j) f w.tables.orders
            (λ y k. (ne_id y k, ne_id y k)),
      )
    where
      ne_id : (y : Order) → has_id id y ≡ true → has_id j y ≡ false
      ne_id y k = ground arith

  -- A call that is refused has changed no row, unless it is the write of the log entry that failed.
  pub update_status_refused :
      (w : World) {e : AppError}
      → (update_status ext c injected notes id user_id req w).0 ≡ err e
      → ((update_status ext c injected notes id user_id req w).1.tables ≡ w.tables)
        ⊎ (e ≡ internal "failed to create status log")
  unfolding update_status write_status
  update_status_refused w {e} h = elim (Option-cases (find_order id w.tables)) [
    | inl missing ↦ ground arith
    | inr (o, found) ↦ ground (
      arith,
      deduct_keeps ext o.tenant_id user_id notes o.id (record {
        tables = record w.tables {
          orders = update_where (has_id id) (with_status c.now user_id req.status) w.tables.orders;
          order_status_logs = w.tables.order_status_logs ++ status_log c id user_id o req ∷ [];
        };
        script = rest (rest (rest w.script));
      }),
    )
  ]
