-- ===== src/Outlets.antt =====
-- internal/service/outlet_service.go and Create of internal/handler/owner/outlet_handler.go: the
-- outlets of a tenant.
mod Calls
pub mod Quota
unfoldable pub use Calls.*
