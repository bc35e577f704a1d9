-- ===== src/Ingest.antt =====
-- app/application/feed_ingestion.py: the fetched feeds and what is stored of them, with
-- app/infrastructure/feeds/parser.py, normalize.py, app/domain/url_normalization.py, hashing.py and
-- text_sanitize.py.
mod Libraries
mod Url
mod Clean
mod Parser
mod Normalize
mod Results
mod Persist
mod Service
pub mod Kept
pub mod Counted
pub mod Recorded
pub mod Totals
unfoldable pub use Libraries.*
unfoldable pub use Url.*
unfoldable pub use Clean.*
unfoldable pub use Parser.*
unfoldable pub use Normalize.*
unfoldable pub use Results.*
unfoldable pub use Persist.*
unfoldable pub use Service.*
