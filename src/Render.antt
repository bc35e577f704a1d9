-- ===== src/Render.antt =====
-- app/application/digest_render.py: the text of a digest, and its split into Telegram messages.
mod Compose
mod Split
pub mod Fit
pub mod Groups
pub mod Parts
unfoldable pub use Compose.*
unfoldable pub use Split.*
