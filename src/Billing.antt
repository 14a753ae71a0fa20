-- ===== src/Billing.antt =====
-- internal/service/billing_service.go: a tenant's plan, its usage and its limits.
mod Usage
pub mod Limits
unfoldable pub use Usage.*
