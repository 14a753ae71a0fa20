-- ===== src/Sync.antt =====
-- internal/service/sync_service.go: the upload of a till's transactions, with all that it sets off.
mod Batch
mod Stock
mod Upload
unfoldable pub use Batch.*
unfoldable pub use Stock.*
unfoldable pub use Upload.*
pub mod Frame
pub mod Parts
pub mod Totals
pub mod Spent
pub mod Spending
pub mod Stored
pub mod Answers
pub mod Refused
