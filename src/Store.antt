-- ===== src/Store.antt =====
-- The database as the services see it through `db.Querier` (internal/pkg/db/querier.go): tables of
-- rows, and statements that run or fail. `script` fixes which of the statements to come fail for a
-- reason outside the model, such as a lost connection; an empty script lets all of them run. A
-- failed statement changes no row.
use service_api.Base.{Bool, true, false, Option, none, some, List, [], ◌∷◌, ◌≡◌, refl, arith}
use service_api.Apperror.{AppError, Result, ok, err}
use service_api.Domain.Orders.{Order, OrderStatusLog}
use service_api.Domain.Transactions.{Transaction}
use service_api.Domain.Members.{Member, PointRedemption}
use service_api.Domain.Shifts.{Shift, ShiftTransaction}
use service_api.Domain.Supplies.{Supply, StockMovement, ServiceSupplyMapping}
use service_api.Domain.Payments.{GatewayConfig, GatewayPayment}
use service_api.Domain.Users.{User, Tenant, ResetToken}
use service_api.Domain.Billing.{SubscriptionPlan, TenantSubscription, TenantUsage, Outlet}
use service_api.Domain.Sync.{SyncSession, ConfigVersion}
use service_api.Domain.Delivery.{DeliveryZone, PickupRequest}
use service_api.Domain.Registration.{PaymentMethod}
use service_api.Domain.Catalog.{
  ServiceCategory, ServiceTemplate, TenantServicePrice, FeatureFlag, TenantFeatureFlag,
}

-- The tables that the services of the till do not touch stand together.
pub record OfficeTables : Type 0 where
  pub sync_sessions : List SyncSession
  pub config_versions : List ConfigVersion
  pub delivery_zones : List DeliveryZone
  pub pickup_requests : List PickupRequest
  pub payment_methods : List PaymentMethod
  pub service_templates : List ServiceTemplate
  pub service_prices : List TenantServicePrice
  pub service_categories : List ServiceCategory
  pub feature_flags : List FeatureFlag
  pub tenant_flags : List TenantFeatureFlag

pub record Tables : Type 0 where
  pub orders : List Order
  pub order_status_logs : List OrderStatusLog
  pub transactions : List Transaction
  pub members : List Member
  pub point_redemptions : List PointRedemption
  pub shifts : List Shift
  pub shift_transactions : List ShiftTransaction
  pub supplies : List Supply
  pub stock_movements : List StockMovement
  pub mappings : List ServiceSupplyMapping
  pub gateway_configs : List GatewayConfig
  pub gateway_payments : List GatewayPayment
  pub plans : List SubscriptionPlan
  pub subscriptions : List TenantSubscription
  pub usages : List TenantUsage
  pub outlets : List Outlet
  pub users : List User
  pub tenants : List Tenant
  pub reset_tokens : List ResetToken
  pub office : OfficeTables

abbrev pub no_rows : Tables
no_rows = record {
  orders = [];
  order_status_logs = [];
  transactions = [];
  members = [];
  point_redemptions = [];
  shifts = [];
  shift_transactions = [];
  supplies = [];
  stock_movements = [];
  mappings = [];
  gateway_configs = [];
  gateway_payments = [];
  plans = [];
  subscriptions = [];
  usages = [];
  outlets = [];
  users = [];
  tenants = [];
  reset_tokens = [];
  office = record {
    sync_sessions = [];
    config_versions = [];
    delivery_zones = [];
    pickup_requests = [];
    payment_methods = [];
    service_templates = [];
    service_prices = [];
    service_categories = [];
    feature_flags = [];
    tenant_flags = [];
  };
}

pub record World : Type 0 where
  pub tables : Tables
  pub script : List Bool

-- Where every statement runs.
abbrev pub calm : Tables → World
calm t = record { tables = t; script = [] }

-- A service call: it returns, and leaves the rows that its statements wrote.
abbrev pub Db : Type 0 → Type 0
Db A = World → Result A × World

-- Whether the next statement fails, and the script behind it.
unfoldable pub fails : List Bool → Bool
fails [] = false
fails (b ∷ _) = b

unfoldable pub rest : List Bool → List Bool
rest [] = []
rest (_ ∷ s) = s

module _ {A : Type 0} where
  abbrev pub pure : A → Db A
  pure a w = (ok a, w)

  abbrev pub raise : AppError → Db A
  raise e w = (err e, w)

  -- How a statement ends: `true` is a failure from the script.
  abbrev pub finish : Bool → Option (A × Tables) → World → Result (Option A) × World
  finish true o w = (ok none, record w { script = rest w.script })
  finish false none w = (ok none, record w { script = rest w.script })
  finish false (some (a, t)) w = (ok (some a), record { tables = t; script = rest w.script })

  -- One statement: `none` where the driver reports an error, from the script or because the
  -- statement breaks a constraint of the schema (the statement itself is `none` then).
  abbrev pub attempt : (Tables → Option (A × Tables)) → Db (Option A)
  attempt f w = finish (fails w.script) (f w.tables) w

  -- `if err != nil { return e }`
  abbrev pub or_raise : AppError → Option A → Db A
  or_raise e none = raise e
  or_raise e (some a) = pure a

-- `if b { return m }; return k`, and the two ways on from an optional value.
abbrev pub branch : {A : Type 0} → Bool → Db A → Db A → Db A
branch true m k w = m w
branch false m k w = k w

abbrev pub case_option : {A B : Type 0} → Option A → Db B → (A → Db B) → Db B
case_option none m k w = m w
case_option (some a) m k w = k a w

infixl 5 ◌>>=◌ ◌>>◌
abbrev pub ◌>>=◌ : {A B : Type 0} → Db A → (A → Db B) → Db B
◌>>=◌ m f w = let (r, w') = m w in elim r [ ok a ↦ f a w' | err e ↦ (err e, w') ]

abbrev pub ◌>>◌ : {A B : Type 0} → Db A → Db B → Db B
m >> k = m >>= λ _. k

-- A SELECT, and a statement that breaks no constraint.
abbrev pub select : {A : Type 0} → (Tables → A) → AppError → Db A
select f e = attempt (λ t. some (f t, t)) >>= or_raise e

abbrev pub exec : (Tables → Tables) → AppError → Db (Unit {0})
exec f e = attempt (λ t. some (tt, f t)) >>= or_raise e

-- `QueryRow(...).Scan(...)` of one row: `ErrNoRows` raises `missing`, any other error `broken`.
abbrev pub query_row : {A : Type 0} → (Tables → Option A) → AppError → AppError → Db A
query_row f missing broken = select f broken >>= or_raise missing

-- A bind that succeeds: its first part returned some value, and the rest ran on that.
pub >>=-eq-ok :
    {A B : Type 0} (m : Db A) (f : A → Db B) (w : World) {b : B}
    → ((m >>= f) w).0 ≡ ok b
    → (a : A) × ((m w).0 ≡ ok a) × ((m >>= f) w ≡ f a (m w).1)
>>=-eq-ok {A} {B} m f w {b} h = split (m w) refl
  where
    split :
        (p : Result A × World) → m w ≡ p → (a : A) × ((m w).0 ≡ ok a) × ((m >>= f) w ≡ f a (m w).1)
    split (ok a, w') e = (a, ground arith, ground arith)
    split (err x, w') e = ground arith
