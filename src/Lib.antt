-- ===== src/Lib.antt =====
-- A model of the laundry point-of-sale backend: the services of internal/service that take orders,
-- charge payments through a gateway, keep stock, members and shifts, bill the tenants and let users
-- log in, take the uploads of the tills, manage tenants, users, outlets, payment methods,
-- deliveries, the catalogue, feature flags and the versions of the configuration, and the limiter,
-- the authentication and the tenant isolation of internal/middleware. The services share one
-- Postgres database and call each other: UpdateStatus of an order that becomes done calls the stock
-- deduction (DeductStockForOrder), an upload creates orders, credits members, deducts stock and
-- counts towards the limit of the plan, and the webhook of the gateway races with the till that
-- created the payment.
--
-- Files. Each service is a module with its operations, a function per Go method of the same name in
-- lower case, and child modules with its theorems.
--   Base, Base/*  shared names; tests; rows; `int64`; selections; ORDER BY; partial updates
--   Apperror      internal/pkg/apperror/errors.go: errors with their HTTP codes
--   Domain/*      the rows and the requests of internal/domain
--   Store         internal/pkg/db/querier.go: tables, statements, and how they fail
--   External      what is called and not implemented: uuid, RFC 3339, float64, NUMERIC, LOWER
--   Order         internal/service/order_service.go: Status (validTransitions), Rows, Writes,
--                 Reads; theorems in Lifecycle, Update, Budget, System, Creation, Pickup
--   Gateway       internal/service/gateway_service.go: Status, Config, Create, Webhook; theorems in
--                 Callback, Reports, Race, Payments
--   Inventory     internal/service/inventory_service.go: Movements, Deduct, Mappings; theorems in
--                 Stock, Frame
--   Member        internal/service/member_service.go: Points, Registry; theorems in Spending,
--                 Loyalty, Referral
--   Shift         internal/service/shift_service.go and the closing handler of
--                 internal/handler/pos/shift_handler.go: Cash, Calls; theorems in Closing, OneOpen
--   Billing       internal/service/billing_service.go: Usage; theorems in Limits
--   Outlets       internal/service/outlet_service.go and Create of
--                 internal/handler/owner/outlet_handler.go: Calls; theorems in Quota
--   Auth          internal/service/auth_service.go: Tokens, Passwords, Register; theorems in
--                 Sessions, Resets, Signup, Owners
--   Users         internal/service/user_service.go: Calls; theorems in Access
--   Tenants       internal/service/tenant_service.go: Calls; theorems in Broadcasts
--   PaymentMethods  internal/service/payment_method_service.go: Calls
--   Middleware    internal/middleware/auth.go, tenant.go and rbac.go: Bearer, Isolation; theorems in
--                 Access, Scope
--   RateLimit     internal/middleware/ratelimit.go: Memory; theorems in Window
--   Sync          internal/service/sync_service.go, and Upload of
--                 internal/handler/pos/sync_handler.go: Batch (pgx.Batch), Stock, Upload; theorems in
--                 Frame, Parts, Totals, Stored, Answers, Spent, Spending, Refused
--   Delivery      internal/service/delivery_service.go: Zones, Pickups; theorems in Fees,
--                 Completion, Tenants
--   Pagination    internal/pkg/pagination/pagination.go: Query; theorems in Pages
--   Catalog       internal/service/service_template_service.go: Categories, Templates, Prices;
--                 theorems in Offers
--   Flags         internal/service/feature_flag_service.go: Calls; theorems in Overrides
--   Config        internal/service/config_service.go: Calls; theorems in Numbering, Ends, Versions,
--                 Settings
--   Tests         the theorems at concrete inputs
--
-- State. A `World` is the tables, as lists of rows, and a script of Booleans. A statement takes the
-- next Boolean: `true` makes it fail and change no row, as a lost connection would; an empty script
-- lets every statement run. A statement that breaks a modelled constraint also fails. A theorem
-- that names no script holds for every one, so for every way in which statements fail. A service
-- call is a function `World → Result A × World`: what earlier statements wrote stays when a later
-- one fails, as the services themselves, but for Register and the webhook, have no transaction.
-- Where TenantIsolation has put a transaction around the request, a failed statement also makes
-- those behind it fail, which is one of the scripts, and the COMMIT takes back what the others
-- wrote; this is in `Middleware`, which has the handler as an argument. UUIDs and instants are
-- natural numbers, an instant counts nanoseconds from the year 1, and the zero UUID is 0; new ids,
-- random tokens, salts and readings of the clock are arguments. `int64` is a signed integer whose
-- sums wrap by `wrap64` where the code adds in Go, and the columns INTEGER and BIGINT refuse what
-- does not fit. A `float64` is its bit pattern, with its operations in `External`. JSON columns
-- stand decoded, and columns that no modelled operation reads are left out of the rows. Texts of
-- messages that print a value go without it.
--
-- Concurrency. Where sessions interleave, the parts of a call between which others run are steps
-- of a relation (`Step` and `Reach` of Gateway/Race, Shift/OneOpen, Order/System,
-- Delivery/Completion, Config/Versions and RateLimit/Window); the limiter's mutex makes its two
-- functions single steps. No loop needs fuel: each is recursion on a list.
--
-- Not modelled: the HTTP handlers and routes, but for those that close a shift, take an upload and
-- create an outlet; the dashboards, expenses, notifications; lists that only read joined
-- rows; row level security; the Redis limiter; the HTTP of Xendit, bcrypt, jwt, encoding/json and
-- the cipher, which are parameters; constraints of the schema other than those that an operation's
-- comment names, whose violations are among the failures of the script.
pub mod Base
pub mod Apperror
pub mod Domain
pub mod Store
pub mod External
pub mod Member
pub mod Inventory
pub mod Order
pub mod Gateway
pub mod Shift
pub mod RateLimit
pub mod Billing
pub mod Auth
pub mod Sync
pub mod Delivery
pub mod Pagination
pub mod Catalog
pub mod Flags
pub mod Config
pub mod Middleware
pub mod Users
pub mod Tenants
pub mod PaymentMethods
pub mod Outlets
pub mod Tests
