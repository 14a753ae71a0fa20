-- ===== src/Catalog.antt =====
-- internal/service/service_template_service.go: the catalogue of services, and what each tenant asks
-- for them.
mod Categories
mod Templates
mod Prices
pub mod Offers
unfoldable pub use Categories.*
unfoldable pub use Templates.*
unfoldable pub use Prices.*
