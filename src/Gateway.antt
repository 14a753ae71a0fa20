-- ===== src/Gateway.antt =====
-- internal/service/gateway_service.go: payments through the Xendit gateway, from the request at the
-- till to the webhook that reports the payment.
mod Status
mod Config
mod Create
mod Webhook
pub mod Payments
pub mod Callback
pub mod Reports
pub mod Race
unfoldable pub use Status.*
unfoldable pub use Config.*
unfoldable pub use Create.*
unfoldable pub use Webhook.*
