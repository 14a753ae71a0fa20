-- ===== src/Order.antt =====
-- internal/service/order_service.go: the orders of a laundry, their status and the log of its changes.
mod Status
mod Rows
mod Writes
mod Reads
pub mod Lifecycle
pub mod Update
pub mod Budget
pub mod System
pub mod Creation
pub mod Pickup
unfoldable pub use Status.*
unfoldable pub use Rows.*
unfoldable pub use Writes.*
unfoldable pub use Reads.*
