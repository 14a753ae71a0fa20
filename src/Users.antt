-- ===== src/Users.antt =====
-- internal/service/user_service.go: the users of a tenant.
mod Calls
pub mod Access
unfoldable pub use Calls.*
