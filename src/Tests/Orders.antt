-- ===== src/Tests/Orders.antt =====
-- Orders: one that is washed, one that is done, and an upload that comes twice.
use service_api.Base.{
  ◌≡◌, refl, arith, true, some, List, [], ◌∷◌, find_where, count_where, update_where,
}
use service_api.Domain.Orders.{received, washing, done, picked_up, Order, UpdateOrderStatusRequest}
use service_api.Domain.Payments.{pending}
use service_api.Store.{World, fails, rest, no_rows}
use service_api.Order.{
  valid_transitions, is_valid, status_eq, with_status, status_log, update_status, write_status,
  find_order, create, created_order, create_from_transaction,
}
use service_api.Order.Lifecycle.{◌⟶◌}
use service_api.Order.Update.{update_status_exact}
use service_api.Order.Budget.{Request}
use service_api.Order.System.{
  created, uploaded, Reach, here, next, OneOrderPerTransaction, Reach-OneOrderPerTransaction,
}
use service_api.Tests.Data.{plain, user, call, order, create_request, upload, world}

abbrev to_washing : UpdateOrderStatusRequest
to_washing = record { status = washing; notes = "" }

abbrev to_done : UpdateOrderStatusRequest
to_done = record { status = done; notes = "" }

abbrev before : World
before = world received pending

update_status_exact_example :
    let t = (update_status plain call true "n" 1 9 to_washing before).1.tables in
    (received ⟶ washing)
    × (with_status 51 9 washing (order 1 received) ≡ with_status 51 9 washing (order 1 received))
    × (find_order 1 t ≡ some (with_status 51 9 washing (order 1 received)))
    × (find_order 2 t ≡ some (order 2 done))
    × (t.order_status_logs ≡ status_log call 1 9 (order 1 received) to_washing ∷ [])
unfolding update_status write_status valid_transitions is_valid status_eq find_where update_where
    fails rest
update_status_exact_example =
    update_status_exact plain call true "n" 1 9 to_washing 2 before {o = order 1 received}
      {r = with_status 51 9 washing (order 1 received)} refl (omega arith) refl

abbrev requests : List Request
requests =
    record { call = call; injected = true; notes = "n"; user_id = 9; body = to_washing }
    ∷ record { call = call; injected = true; notes = "n"; user_id = 9; body = to_done }
    ∷ []

abbrev collected : World
collected = world picked_up pending

abbrev twice : World
twice =
    (create_from_transaction plain call 5 9 (upload 3)
      (create plain call 5 9 create_request before).1).1

both : Reach plain before twice
both =
    next (next here (created call 5 9 create_request before))
      (uploaded call 5 9 (upload 3) (create plain call 5 9 create_request before).1)

one_each : OneOrderPerTransaction before
unfolding count_where
one_each tx = ground arith

Reach-OneOrderPerTransaction_example : OneOrderPerTransaction twice
Reach-OneOrderPerTransaction_example =
    Reach-OneOrderPerTransaction plain {u = before} {v = twice} both one_each

abbrev fresh : World
fresh = record { tables = record no_rows { users = user ∷ [] }; script = [] }

abbrev new_order : Order
new_order = created_order plain call 5 9 1 (some 2) create_request
