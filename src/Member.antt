-- ===== src/Member.antt =====
-- internal/service/member_service.go: loyalty members, their tier by total spending, and their
-- points. New ids, codes and the clock's reading are arguments.
mod Points
mod Registry
pub mod Spending
pub mod Loyalty
pub mod Referral
unfoldable pub use Points.*
unfoldable pub use Registry.*
