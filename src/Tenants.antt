-- ===== src/Tenants.antt =====
-- internal/service/tenant_service.go: the tenants.
mod Calls
pub mod Broadcasts
unfoldable pub use Calls.*
