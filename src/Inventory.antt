-- ===== src/Inventory.antt =====
-- internal/service/inventory_service.go: stock movements, the deduction of stock for an order, the
-- mappings from services to supplies.
mod Movements
mod Deduct
mod Mappings
pub mod Stock
pub mod Frame
unfoldable pub use Movements.*
unfoldable pub use Deduct.*
unfoldable pub use Mappings.*
