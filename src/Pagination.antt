-- ===== src/Pagination.antt =====
-- internal/pkg/pagination/pagination.go: the page that a request asks for. `strconv.Atoi` is a
-- parameter; numbers of pages are Go's `int`, of 64 bits.
mod Query
pub mod Pages
unfoldable pub use Query.*
