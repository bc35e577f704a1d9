-- ===== src/Digest.antt =====
-- app/domain/digest.py: `DigestItem` and `Digest`, a generated digest and its delivery.
mod Item
mod Entity
mod Construct
mod Methods
pub mod Invariant
pub mod Positions
pub mod Preserved
unfoldable pub use Item.*
unfoldable pub use Entity.*
unfoldable pub use Construct.*
unfoldable pub use Methods.*
