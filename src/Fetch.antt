-- ===== src/Fetch.antt =====
-- app/domain/feed_fetch.py: `FeedFetch`, the result of fetching one source.
mod Entity
pub mod Invariant
unfoldable pub use Entity.*
