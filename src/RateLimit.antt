-- ===== src/RateLimit.antt =====
-- internal/middleware/ratelimit.go: how often one address can call.
mod Memory
pub mod Window
unfoldable pub use Memory.*
