-- ===== src/Delivery.antt =====
-- internal/service/delivery_service.go: delivery zones with their fees, and requests for a pickup.
mod Zones
mod Pickups
pub mod Fees
pub mod Completion
pub mod Tenants
unfoldable pub use Zones.*
unfoldable pub use Pickups.*
