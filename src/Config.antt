-- ===== src/Config.antt =====
-- internal/service/config_service.go: the numbered versions of a tenant's configuration.
mod Calls
pub mod Numbering
pub mod Ends
pub mod Versions
pub mod Settings
unfoldable pub use Calls.*
