-- ===== src/Domain.antt =====
-- The rows of the database and the requests of the services (internal/domain), one child for each
-- group of tables. A UUID is a number, a `time.Time` a number of nanoseconds, an `int64` an
-- integer, a nullable column or pointer an `Option`.
pub mod Orders
pub mod Transactions
pub mod Members
pub mod Shifts
pub mod Supplies
pub mod Payments
pub mod Billing
pub mod Users
pub mod Sync
pub mod Delivery
pub mod Registration
pub mod Catalog
