-- ===== src/Tests/Data.antt =====
-- The rows and the parameters that the examples share.
use service_api.Base.{
  ℕ, ◌*◌, true, false, Option, none, some, [], ◌∷◌, ◌+ℤ◌, ◌-ℤ◌, ℤ, pos, str_eq, ◌==◌, if◌then◌else◌,
}
use service_api.Domain.Orders.{Status, done, pickup, Order, CreateOrderRequest}
use service_api.Domain.Transactions.{Transaction, TxUpload, completed}
use service_api.Domain.Members.{bronze, Member}
use service_api.Domain.Shifts.{opened, Shift}
use service_api.Domain.Supplies.{Supply}
use service_api.Domain.Payments.{GatewayStatus, GatewayConfig, GatewayPayment}
use service_api.Domain.Users.{cashier, User, ResetToken}
use service_api.Domain.Billing.{SubscriptionPlan, Outlet}
use service_api.External.{External}
use service_api.Store.{Tables, World, no_rows}
use service_api.Order.{Call}

-- Two ids have texts; a `float64` stands for a number of hundredths.
abbrev pub plain : External
plain = record {
  parse_uuid = λ s. if str_eq s "u1" then some 1 else if str_eq s "u2" then some 2 else none;
  uuid_string = λ n. if n == 1 then "u1" else "u2";
  parse_time = λ s. none;
  mul_float = λ a b. a * b;
  neg_float = λ a. a;
  to_numeric = λ a. some (pos a);
  plus_numeric = λ a b. some (a +ℤ pos b);
  minus_numeric = λ a b. some (a -ℤ pos b);
  lower = λ s. s;
  collate = λ a b. true;
}

abbrev pub user : User
user = record {
  id = 9;
  email = "kasir@x.id";
  name = "Kasir";
  password_hash = "h0";
  role = cashier;
  tenant_id = some 5;
  is_active = true;
  created_at = 1;
  updated_at = 1;
}

abbrev pub outlet : Outlet
outlet = record {
  id = 1;
  tenant_id = 5;
  name = "Pusat";
  address = "";
  phone = "";
  is_active = true;
  created_at = 1;
  updated_at = 1;
}

abbrev pub call : Call
call = record { new_id = 7; log_id = 8; token = "t7"; started = 50; now = 51 }

abbrev pub order : ℕ → Status → Order
order id s = record {
  id = id;
  transaction_id = some id;
  tenant_id = 5;
  outlet_id = 1;
  status = s;
  estimated_completion_at = none;
  completed_at = none;
  picked_up_at = none;
  notes = none;
  customer_phone = none;
  tracking_token = some "t1";
  delivery_type = pickup;
  delivery_address = none;
  delivery_fee = pos 0;
  scheduled_pickup_at = none;
  created_by = 9;
  updated_by = 9;
  created_at = 10;
  updated_at = 10;
}

abbrev pub create_request : CreateOrderRequest
create_request = record {
  transaction_id = some "u2";
  outlet_id = "u1";
  estimated_duration_hours = pos 24;
  notes = "lipat";
  customer_phone = "";
  delivery_type = "delivery";
  delivery_address = "Jl. A";
  delivery_fee = pos 5000;
  scheduled_pickup_at = "";
}

abbrev pub transaction : ℕ → ℤ → Transaction
transaction id total = record {
  id = id;
  tenant_id = 5;
  outlet_id = 1;
  member_id = none;
  items = some [];
  total_amount = total;
  payments =
      some
        (record { method_type = some "cash"; type_name = none; method = none; amount = none } ∷ []);
  status = completed;
  created_by = 9;
  created_at = 10;
  synced_at = none;
}

abbrev pub upload : ℕ → TxUpload
upload id = record {
  row = transaction id (pos 40000);
  notes = none;
  shift_id = none;
  customer_phone = none;
  estimated_duration_hours = none;
  delivery_type = none;
  delivery_address = none;
  delivery_fee = none;
  scheduled_pickup_at = none;
}

abbrev pub member : ℕ → ℤ → Option ℕ → Member
member id points referrer = record {
  id = id;
  tenant_id = some 5;
  name = "M";
  phone = "08";
  email = "";
  tier = bronze;
  discount_percent = pos 0;
  total_points = points;
  total_spending = pos 400000;
  referral_code = none;
  referred_by_member_id = referrer;
  has_first_transaction = false;
  created_at = 1;
}

abbrev pub shift : Shift
shift = record {
  id = 3;
  tenant_id = 5;
  outlet_id = 1;
  cashier_id = 9;
  opening_cash = pos 100000;
  closing_cash = none;
  expected_cash = none;
  cash_difference = none;
  status = opened;
  opened_at = 5;
  closed_at = none;
  notes = none;
  created_at = 5;
}

abbrev pub supply : Supply
supply = record {
  id = 1;
  tenant_id = 5;
  name = "Deterjen";
  current_stock = pos 500;
  min_stock = pos 100;
  cost_per_unit = pos 20;
  is_active = true;
}

abbrev pub payment : GatewayStatus → GatewayPayment
payment s = record {
  id = 4;
  tenant_id = 5;
  transaction_id = 1;
  payment_item_id = 1;
  gateway_type = "qris";
  external_id = "lpos-u1";
  gateway_ref_id = none;
  amount = pos 40000;
  gateway_status = s;
  gateway_payment_url = none;
  qr_string = none;
  gateway_response = none;
  webhook_payload = none;
  expires_at = none;
  paid_at = none;
  created_at = 10;
  updated_at = 10;
}

abbrev pub config : GatewayConfig
config = record {
  tenant_id = 5;
  is_enabled = true;
  secret_key_encrypted = "secret";
  public_key = none;
}

abbrev pub small_plan : SubscriptionPlan
small_plan = record {
  id = 6;
  slug = "free";
  max_outlets = pos 1;
  max_transactions_per_month = pos 50;
  is_active = true;
}

abbrev pub reset_token : ResetToken
reset_token = record {
  id = 11;
  user_id = 9;
  token = "tok";
  expires_at = 100;
  used_at = none;
  created_at = 10;
}

-- The tables of the examples, with an order in a status and a payment in one.
abbrev pub some_rows : Status → GatewayStatus → Tables
some_rows s g = record no_rows {
  orders = order 1 s ∷ order 2 done ∷ [];
  transactions = transaction 1 (pos 40000) ∷ [];
  members = member 1 (pos 250) (some 2) ∷ member 2 (pos 0) none ∷ [];
  shifts = shift ∷ [];
  shift_transactions = record { shift_id = 3; transaction_id = 1 } ∷ [];
  supplies = supply ∷ [];
  gateway_configs = config ∷ [];
  gateway_payments = payment g ∷ [];
  plans = small_plan ∷ [];
  outlets = outlet ∷ [];
  users = user ∷ [];
  reset_tokens = reset_token ∷ [];
}

abbrev pub world : Status → GatewayStatus → World
world s g = record { tables = some_rows s g; script = [] }
