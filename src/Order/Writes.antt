-- ===== src/Order/Writes.antt =====
-- `Create`, `UpdateStatus`, `CreateFromTransaction` and `RequestPickup` of
-- internal/service/order_service.go.
use service_api.Base.{ℕ, Bool, ◌&&◌, Option, none, some, find_where, String, str_eq}
use service_api.Apperror.{not_found, validation, internal}
use service_api.Domain.Orders.{Status, Order, CreateOrderRequest, UpdateOrderStatusRequest}
use service_api.Domain.Transactions.{TxUpload}
use service_api.External.{External}
use service_api.Store.{
  Db, attempt, query_row, pure, raise, or_raise, branch, case_option, ◌>>=◌, ◌>>◌,
}
use service_api.Inventory.{deduct_stock_for_order, optional_text}
use service_api.Order.Status.{valid_transitions, is_valid}
use service_api.Order.Rows.{
  has_token, find_order, insert_log, Call, insert_order, created_order, initial_log, is_done,
  with_status, update_order, status_log, uploaded_order, insert_order_once, insert_log_if_created,
  pickup_log,
}

-- The order's row and its first log entry.
unfoldable pub insert_received : Call → ℕ → Option String → Order → Db Order
insert_received c user_id notes o = do
  attempt (insert_order o) >>= or_raise (internal "failed to create order")
  attempt (insert_log (initial_log c user_id notes))
      >>= or_raise (internal "failed to create status log")
  pure o

-- The transaction that the request names: an absent or empty text is none.
abbrev pub parse_transaction : External → Option String → Db (Option ℕ)
parse_transaction ext none = pure none
parse_transaction ext (some s) = branch (str_eq s "") (pure none) (
    case_option (ext.parse_uuid s) (raise (validation "invalid transaction_id"))
      (λ t. pure (some t)))

-- `Create`
unfoldable pub create : External → Call → ℕ → ℕ → CreateOrderRequest → Db Order
create ext c tenant_id user_id req =
    case_option (ext.parse_uuid req.outlet_id) (raise (validation "invalid outlet_id")) (λ outlet.
      do
        tx ← parse_transaction ext req.transaction_id
        insert_received c user_id (optional_text req.notes)
            (created_order ext c tenant_id user_id outlet tx req))

-- The check of the transition: 422 for a status with no way on, and for a way that is not there.
-- The texts of the messages go without the statuses that the code prints into them.
abbrev pub check_transition : Status → Status → Db (Unit {0})
check_transition from to =
    case_option (valid_transitions from) (raise (validation "cannot transition from status"))
      (λ allowed. branch (is_valid allowed to) (pure tt) (raise (validation "invalid transition")))

-- `s.inventorySvc.DeductStockForOrder` where a service is injected and the order is done. Its
-- failure, which it never reports, would be logged.
abbrev pub deduct_if_done : External → Bool → ℕ → String → Order → Status → Db (Unit {0})
deduct_if_done ext injected user_id notes o s =
    branch (is_done s && injected) (deduct_stock_for_order ext o.tenant_id user_id notes o.id)
      (pure tt)

-- The writes of `UpdateStatus` for an order that was read as `o`.
unfoldable pub write_status :
    External → Call → Bool → String → ℕ → ℕ → UpdateOrderStatusRequest → Order → Db Order
write_status ext c injected notes id user_id req o = do
  attempt (λ t. some (tt, update_order id (with_status c.now user_id req.status) t))
      >>= or_raise (internal "failed to update order status")
  attempt (insert_log (status_log c id user_id o req))
      >>= or_raise (internal "failed to create status log")
  deduct_if_done ext injected user_id notes o req.status
  pure (with_status c.now user_id req.status o)

-- `UpdateStatus`. `injected` says whether an inventory service is set, `notes` is the text of its
-- movements.
unfoldable pub update_status :
    External → Call → Bool → String → ℕ → ℕ → UpdateOrderStatusRequest → Db Order
update_status ext c injected notes id user_id req = do
  o ← query_row (find_order id) (not_found "order not found") (internal "failed to get order")
  check_transition o.status req.status
  write_status ext c injected notes id user_id req o

-- `CreateFromTransaction`
unfoldable pub create_from_transaction : External → Call → ℕ → ℕ → TxUpload → Db (Unit {0})
create_from_transaction ext c tenant_id user_id tx = do
  attempt
        (λ t. some (tt, insert_order_once tx.row.id (uploaded_order ext c tenant_id user_id tx) t))
      >>= or_raise (internal "failed to create order from transaction")
  attempt (insert_log_if_created (initial_log c user_id none))
      >>= or_raise (internal "failed to create initial status log")

-- `RequestPickup`
unfoldable pub request_pickup : Call → String → Db (Unit {0})
request_pickup c token = do
  o ←
      query_row (λ t. find_where (has_token token) t.orders) (not_found "pesanan tidak ditemukan")
        (internal "failed to get order")
  branch (is_done o.status)
      (attempt (insert_log (pickup_log c o)) >>= or_raise (internal "failed to log pickup request"))
      (raise (validation "pesanan belum selesai, tidak bisa minta penjemputan"))
