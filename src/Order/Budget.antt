-- ===== src/Order/Budget.antt =====
-- How often the status of one order can change (internal/service/order_service.go, UpdateStatus).
use service_api.Base.{
  ℕ, ◌+◌, ◌≡◌, ◌⊎◌, refl, Bool, Option, none, some, List, [], ◌∷◌, ◌++◌, String, arith,
  update_where, ap, ◌∙◌,
}
use service_api.Apperror.{Result, ok, err}
use service_api.Domain.Orders.{Status, Order, UpdateOrderStatusRequest}
use service_api.External.{External}
use service_api.Store.{World, rest}
use service_api.Order.Status.{valid_transitions}
use service_api.Order.Rows.{has_id, find_order, Call, with_status, status_log}
use service_api.Order.Writes.{write_status, update_status}
use service_api.Order.Lifecycle.{stage}
use service_api.Order.Update.{deduct_keeps}

-- One request to change the status of an order, with what its call is given from outside.
pub record Request : Type 0 where
  pub call : Call
  pub injected : Bool
  pub notes : String
  pub user_id : ℕ
  pub body : UpdateOrderStatusRequest

abbrev pub update_by : External → ℕ → Request → World → Result Order × World
update_by ext id r = update_status ext r.call r.injected r.notes id r.user_id r.body

abbrev pub success : Result Order → ℕ
success (ok _) = 1
success (err _) = 0

-- The requests one after another, with the number of those that succeed.
unfoldable pub run_updates : External → ℕ → List Request → World → ℕ × World
run_updates ext id [] w = (0, w)
run_updates ext id (r ∷ rs) w =
    let (result, w1) = update_by ext id r w in
    let (n, w2) = run_updates ext id rs w1 in (success result + n, w2)

-- The stage of an order that may be missing.
abbrev pub stage_of : Option Order → ℕ
stage_of none = 5
stage_of (some o) = stage o.status

-- The writes of a call leave the orders alone and fail, or update the order's row.
pub write_status_orders :
    (ext : External) (id : ℕ) (r : Request) (o : Order) (w : World)
    → let (result, w') = write_status ext r.call r.injected r.notes id r.user_id r.body o w in
      ((success result ≡ 0) × (w'.tables.orders ≡ w.tables.orders))
      ⊎ (w'.tables.orders
          ≡ update_where
              (has_id id)
              (with_status r.call.now r.user_id r.body.status)
              w.tables.orders)
unfolding write_status
write_status_orders ext id r o w = ground (
  arith,
  deduct_keeps ext o.tenant_id r.user_id r.notes o.id (record {
    tables = record w.tables {
      orders =
          update_where (has_id id) (with_status r.call.now r.user_id r.body.status) w.tables.orders;
      order_status_logs =
          w.tables.order_status_logs ++ status_log r.call id r.user_id o r.body ∷ [];
    };
    script = rest (rest w.script);
  }),
)

refused_if_final :
    (ext : External) (id : ℕ) (r : Request) (w : World) {o : Order}
    → find_order id w.tables ≡ some o
    → valid_transitions o.status ≡ none
    → (success (update_by ext id r w).0 ≡ 0) × ((update_by ext id r w).1.tables ≡ w.tables)
unfolding update_status
refused_if_final ext id r w found final = ground arith

-- An order that has been collected or cancelled keeps its row through every sequence of requests,
-- and none of them succeeds.
pub run_updates_final :
    (ext : External) (id : ℕ) (rs : List Request) (w : World) {o : Order}
    → find_order id w.tables ≡ some o
    → valid_transitions o.status ≡ none
    → ((run_updates ext id rs w).0 ≡ 0) × ((run_updates ext id rs w).1.tables ≡ w.tables)
unfolding run_updates
run_updates_final ext id [] w found final = (refl, refl)
run_updates_final ext id (r ∷ rs) w {o} found final =
    let (failed, same) = refused_if_final ext id r w {o = o} found final in
    let later =
      run_updates_final ext id rs (update_by ext id r w).1 {o = o} (ap (find_order id) same ∙ found)
        final in
    (omega (arith, failed, later.0), later.1 ∙ same)
