-- ===== src/PaymentMethods.antt =====
-- internal/service/payment_method_service.go: the ways to pay that a tenant offers.
mod Calls
unfoldable pub use Calls.*
