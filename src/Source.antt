-- ===== src/Source.antt =====
-- app/domain/entities.py: `Source`, a configured feed and what is known of its last fetches.
mod Entity
mod Methods
pub mod Laws
unfoldable pub use Entity.*
unfoldable pub use Methods.*
