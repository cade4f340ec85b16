-- ===== src/Library.antt =====
-- src/modules/library: where a reader has stopped, and how far a book is.
pub mod Positions
pub mod ItemStatus
pub mod Anchor
pub mod Bookmarks
mod Tests
