-- ===== src/Delivery.antt =====
-- app/application/digest_delivery.py: `DigestDeliveryService`.
mod Client
mod Monad
mod Part
mod Deliver
mod Parts
pub mod Kept
pub mod Resumed
unfoldable pub use Client.*
unfoldable pub use Monad.*
unfoldable pub use Part.*
unfoldable pub use Deliver.*
