-- ===== src/Order/Reads.antt =====
-- `ListActive` and `GetByTrackingToken` of internal/service/order_service.go, without the order of
-- their rows and the columns of other tables.
use service_api.Base.{
  ℕ, Bool, ◌&&◌, true, false, Option, none, some, List, ◌==◌, select_where, find_where, String,
  str_eq,
}
use service_api.Apperror.{not_found, validation, internal}
use service_api.Domain.Orders.{Status, picked_up, cancelled, Order, OrderStatusLog}
use service_api.External.{External}
use service_api.Store.{Tables, Db, select, query_row, pure, raise, branch, case_option, ◌>>=◌}
use service_api.Order.Rows.{has_token}

-- `status NOT IN ('picked_up', 'cancelled')`
abbrev pub is_active : Status → Bool
is_active picked_up = false
is_active cancelled = false
is_active _ = true

abbrev pub active_orders : ℕ → Option ℕ → Tables → List Order
active_orders tenant_id none t =
    select_where (λ o. o.tenant_id == tenant_id && is_active o.status) t.orders
active_orders tenant_id (some outlet) t =
    select_where (λ o. o.tenant_id == tenant_id && is_active o.status && o.outlet_id == outlet)
      t.orders

-- `ListActive`
unfoldable pub list_active : External → ℕ → String → Db (List Order)
list_active ext tenant_id outlet_id =
    branch (str_eq outlet_id "")
      (select (active_orders tenant_id none) (internal "failed to query active orders"))
      (case_option (ext.parse_uuid outlet_id) (raise (validation "invalid outlet_id")) (λ outlet.
        select (active_orders tenant_id (some outlet)) (internal "failed to query active orders")))

pub record Tracking : Type 0 where
  pub order : Order
  pub status_history : List OrderStatusLog

-- `GetByTrackingToken`
unfoldable pub get_by_tracking_token : String → Db Tracking
get_by_tracking_token token = do
  o ←
      query_row (λ t. find_where (has_token token) t.orders) (not_found "pesanan tidak ditemukan")
        (internal "failed to get order by tracking token")
  logs ←
      select (λ t. select_where (λ l. l.order_id == o.id) t.order_status_logs)
        (internal "failed to get status logs")
  pure (record { order = o; status_history = logs })
