-- ===== src/News.antt =====
-- app/domain/entities.py: `NewsItem`, a collected article and its processing state.
mod Entity
mod Construct
mod Methods
pub mod Invariant
unfoldable pub use Entity.*
unfoldable pub use Construct.*
unfoldable pub use Methods.*
