-- ===== src/Auth.antt =====
-- internal/service/auth_service.go: who can log in, and how a forgotten password is reset.
mod Tokens
mod Passwords
mod Register
pub mod Signup
pub mod Owners
pub mod Sessions
pub mod Resets
unfoldable pub use Tokens.*
unfoldable pub use Passwords.*
unfoldable pub use Register.*
