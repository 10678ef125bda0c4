-- ===== src/Contracts.antt =====
-- The typed contracts of contracts.py. Text columns are native strings. A timestamp is the number
-- of microseconds since Python's `datetime.min` in UTC: every aware datetime is normalised before
-- it is stored or compared (causal_time.py's `ensure_utc`). JSON objects are `Fields`.
mod Documents
mod Lookup
mod Status
mod Job
mod Run
mod Event
mod Catalog
mod Activity
unfoldable pub use Documents.*
pub use Lookup.*
unfoldable pub use Status.*
unfoldable pub use Job.*
unfoldable pub use Run.*
unfoldable pub use Event.*
pub use Activity.*
unfoldable pub use Catalog.*
