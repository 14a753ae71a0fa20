-- ===== src/Flags.antt =====
-- internal/service/feature_flag_service.go: feature flags, and what the tenants override.
mod Calls
pub mod Overrides
unfoldable pub use Calls.*
