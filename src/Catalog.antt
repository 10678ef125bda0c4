-- ===== src/Catalog.antt =====
-- The shared notebook catalog in the store: entries, their numbered source versions, and the review
-- that takes a version from draft to published (the repository methods of store.py).
mod State
mod Transition
pub mod Entries
pub mod Review
pub mod Versions
pub mod Calls
pub mod Changes
pub mod Published
pub mod Numbering
pub mod Followed
pub mod Removal
unfoldable pub use State.*
unfoldable pub use Transition.*
