-- ===== src/Select.antt =====
-- app/domain/selection.py: the pre-filter, the scores and the caps of the digest's candidates.
-- Floating-point numbers are those of the machine and are a parameter of the model.
mod Score
mod Choose
pub mod Caps
pub mod Eligible
unfoldable pub use Score.*
unfoldable pub use Choose.*
