-- ===== src/Order/Rows.antt =====
-- The rows of orders and of their log as internal/service/order_service.go writes them. New ids, the
-- tracking token and the clock's reading are arguments. Of the schema's constraints the model has
-- those on a log's order and its user, and the unique transaction of an order; any other shows as a
-- statement that fails.
use service_api.Base.{
  ℕ, ◌*◌, Bool, true, false, ◌&&◌, Option, none, some, ◌∷◌, [], ◌++◌, ◌==◌, ℤ, pos, negsuc, wrap64,
  add_duration, if◌then◌else◌, find_where, update_where, String, str_eq,
}
use service_api.Domain.Orders.{
  Status, received, done, picked_up, pickup_requested, DeliveryType, pickup, delivery, Order,
  OrderStatusLog, CreateOrderRequest, UpdateOrderStatusRequest,
}
use service_api.Domain.Transactions.{TxUpload}
use service_api.Domain.Users.{User}
use service_api.External.{External}
use service_api.Store.{Tables}
use service_api.Inventory.{optional_text}

abbrev pub has_id : ℕ → Order → Bool
has_id id o = o.id == id

abbrev pub has_transaction : ℕ → Order → Bool
has_transaction tx o = elim o.transaction_id [ none ↦ false | some t ↦ t == tx ]

abbrev pub has_token : String → Order → Bool
has_token token o = elim o.tracking_token [ none ↦ false | some t ↦ str_eq t token ]

abbrev pub find_order : ℕ → Tables → Option Order
find_order id t = find_where (has_id id) t.orders

abbrev pub user_exists : ℕ → Tables → Option User
user_exists id t = find_where (λ u. u.id == id) t.users

-- `INSERT INTO order_status_logs`: the order and the user exist.
abbrev pub insert_log : OrderStatusLog → Tables → Option (Unit {0} × Tables)
insert_log l t = elim (find_order l.order_id t) [
  | none ↦ none
  | some _ ↦ elim (user_exists l.changed_by t) [
    | none ↦ none
    | some _ ↦ some (tt, record t { order_status_logs = t.order_status_logs ++ l ∷ [] })
  ]
]

-- What one call is given from outside: ids, a token, and two readings of the clock.
pub record Call : Type 0 where
  pub new_id : ℕ
  pub log_id : ℕ
  pub token : String
  pub started : ℕ
  pub now : ℕ

abbrev pub hour : ℕ
hour = 3600000000000

-- `now.Add(time.Duration(hours) * time.Hour)` for a positive number of hours, else NULL.
abbrev pub estimate : ℕ → ℤ → Option ℕ
estimate now (negsuc _) = none
estimate now (pos hours) =
    if hours == 0 then none else some (add_duration now (wrap64 (pos (hours * hour))))

abbrev pub delivery_of : String → DeliveryType
delivery_of s = if str_eq s "delivery" then delivery else pickup

-- A text that does not parse is ignored.
abbrev pub pickup_time : External → String → Option ℕ
pickup_time ext s = if str_eq s "" then none else ext.parse_time s

-- The unique column `transaction_id` refuses a second order of a transaction.
abbrev pub insert_order : Order → Tables → Option (Unit {0} × Tables)
insert_order o t =
    let inserted : Option (Unit {0} × Tables) =
      some (tt, record t { orders = t.orders ++ o ∷ [] }) in
    elim o.transaction_id [
      | none ↦ inserted
      | some tx ↦ elim (find_where (has_transaction tx) t.orders) [
        | none ↦ inserted
        | some _ ↦ none
      ]
    ]

abbrev pub created_order : External → Call → ℕ → ℕ → ℕ → Option ℕ → CreateOrderRequest → Order
created_order ext c tenant_id user_id outlet_id tx req = record {
  id = c.new_id;
  transaction_id = tx;
  tenant_id = tenant_id;
  outlet_id = outlet_id;
  status = received;
  estimated_completion_at = estimate c.started req.estimated_duration_hours;
  completed_at = none;
  picked_up_at = none;
  notes = optional_text req.notes;
  customer_phone = optional_text req.customer_phone;
  tracking_token = some c.token;
  delivery_type = delivery_of req.delivery_type;
  delivery_address = optional_text req.delivery_address;
  delivery_fee = req.delivery_fee;
  scheduled_pickup_at = pickup_time ext req.scheduled_pickup_at;
  created_by = user_id;
  updated_by = user_id;
  created_at = c.now;
  updated_at = c.now;
}

abbrev pub initial_log : Call → ℕ → Option String → OrderStatusLog
initial_log c user_id notes = record {
  id = c.log_id;
  order_id = c.new_id;
  from_status = none;
  to_status = received;
  changed_by = user_id;
  notes = notes;
  created_at = c.now;
}

abbrev pub is_done : Status → Bool
is_done done = true
is_done _ = false

abbrev pub is_picked_up : Status → Bool
is_picked_up picked_up = true
is_picked_up _ = false

-- The UPDATE of `UpdateStatus`, on a row; the order that is returned is changed alike.
abbrev pub with_status : ℕ → ℕ → Status → Order → Order
with_status now user_id s o = record o {
  status = s;
  updated_by = user_id;
  updated_at = now;
  completed_at = if is_done s then some now else o.completed_at;
  picked_up_at = if is_picked_up s then some now else o.picked_up_at;
}

abbrev pub update_order : ℕ → (Order → Order) → Tables → Tables
update_order id f t = record t { orders = update_where (has_id id) f t.orders }

abbrev pub status_log : Call → ℕ → ℕ → Order → UpdateOrderStatusRequest → OrderStatusLog
status_log c id user_id o req = record {
  id = c.log_id;
  order_id = id;
  from_status = some o.status;
  to_status = req.status;
  changed_by = user_id;
  notes = optional_text req.notes;
  created_at = c.now;
}

abbrev pub uploaded_order : External → Call → ℕ → ℕ → TxUpload → Order
uploaded_order ext c tenant_id user_id tx = record {
  id = c.new_id;
  transaction_id = some tx.row.id;
  tenant_id = tenant_id;
  outlet_id = tx.row.outlet_id;
  status = received;
  estimated_completion_at = elim tx.estimated_duration_hours [
    | none ↦ none
    | some h ↦ estimate c.now h
  ];
  completed_at = none;
  picked_up_at = none;
  notes = tx.notes;
  customer_phone = tx.customer_phone;
  tracking_token = some c.token;
  delivery_type = elim tx.delivery_type [ none ↦ pickup | some s ↦ delivery_of s ];
  delivery_address = tx.delivery_address;
  delivery_fee = elim tx.delivery_fee [ none ↦ pos 0 | some f ↦ f ];
  scheduled_pickup_at = elim tx.scheduled_pickup_at [ none ↦ none | some s ↦ pickup_time ext s ];
  created_by = user_id;
  updated_by = user_id;
  created_at = c.now;
  updated_at = c.now;
}

-- `INSERT INTO orders ... ON CONFLICT (transaction_id) DO NOTHING`
abbrev pub insert_order_once : ℕ → Order → Tables → Tables
insert_order_once tx o t = elim (find_where (has_transaction tx) t.orders) [
  | none ↦ record t { orders = t.orders ++ o ∷ [] }
  | some _ ↦ t
]

-- `INSERT INTO order_status_logs ... WHERE EXISTS (SELECT 1 FROM orders WHERE id AND created_at)`
abbrev pub insert_log_if_created : OrderStatusLog → Tables → Option (Unit {0} × Tables)
insert_log_if_created l t =
    elim (find_where (λ o. o.id == l.order_id && o.created_at == l.created_at) t.orders) [
      | none ↦ some (tt, t)
      | some _ ↦ insert_log l t
    ]

-- The user that `RequestPickup` names in the log: the nil UUID.
abbrev pub nil_uuid : ℕ
nil_uuid = 0

abbrev pub pickup_log : Call → Order → OrderStatusLog
pickup_log c o = record {
  id = c.log_id;
  order_id = o.id;
  from_status = some o.status;
  to_status = pickup_requested;
  changed_by = nil_uuid;
  notes = some "Permintaan penjemputan dari pelanggan";
  created_at = c.now;
}
