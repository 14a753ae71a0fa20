-- ===== src/Middleware.antt =====
-- internal/middleware/tenant.go and rbac.go: whose rows a request sees, and who may call what.
mod Isolation
mod Bearer
pub mod Access
pub mod Scope
unfoldable pub use Isolation.*
unfoldable pub use Bearer.*
