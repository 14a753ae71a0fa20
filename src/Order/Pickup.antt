-- ===== src/Order/Pickup.antt =====
-- The customer's request for pickup (internal/service/order_service.go, RequestPickup).
use service_api.Base.{
  ◌≡◌, ◌≢◌, none, some, [], ◌∷◌, ◌++◌, String, arith, find_where, Option-cases, inl, inr,
}
use service_api.Apperror.{ok}
use service_api.Domain.Orders.{done, Order}
use service_api.Store.{World}
use service_api.Order.Rows.{has_token, Call, pickup_log, nil_uuid, user_exists}
use service_api.Order.Writes.{request_pickup}

-- A request that succeeds was for an order that is done, and only adds its entry to the log.
pub request_pickup_exact :
    (c : Call) (token : String) (w : World) {o : Order}
    → find_where (has_token token) w.tables.orders ≡ some o
    → (request_pickup c token w).0 ≡ ok tt
    → let t = (request_pickup c token w).1.tables in
      (o.status ≡ done)
      × (t ≡ record w.tables {
        order_status_logs = w.tables.order_status_logs ++ pickup_log c o ∷ [];
      })
unfolding request_pickup
request_pickup_exact c token w found h = ground arith

-- The entry names the nil UUID as its user, and the log's column refers to the users: where no user
-- has that id, no request succeeds and none changes a row, though the order be done.
request_pickup_never :
    (c : Call) (token : String) (w : World)
    → user_exists nil_uuid w.tables ≡ none
    → ((request_pickup c token w).0 ≢ ok tt) × ((request_pickup c token w).1.tables ≡ w.tables)
unfolding request_pickup
request_pickup_never c token w nobody =
    elim (Option-cases (find_where (has_token token) w.tables.orders)) [
      | inl missing ↦ (ground arith, ground arith)
      | inr (o, found) ↦ (ground arith, ground arith)
    ]
