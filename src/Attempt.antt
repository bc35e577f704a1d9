-- ===== src/Attempt.antt =====
-- app/domain/delivery.py: `DeliveryAttempt`, one try to send one part of a digest.
mod Entity
mod Construct
mod Methods
pub mod Invariant
pub mod Preserved
pub use Entity.*
unfoldable pub use Construct.*
unfoldable pub use Methods.*
