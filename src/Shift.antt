-- ===== src/Shift.antt =====
-- internal/service/shift_service.go: a cashier's shift, from the opening count of the cash to the
-- closing one.
mod Cash
mod Calls
pub mod Closing
pub mod OneOpen
unfoldable pub use Cash.*
unfoldable pub use Calls.*
