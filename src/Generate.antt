-- ===== src/Generate.antt =====
-- app/application/digest_validation.py and digest_generation.py, with the types of digest_schema.py
-- and llm_types.py.
mod Output
mod Markup
mod Validate
mod Contexts
mod Service
pub mod Sound
pub mod Calls
unfoldable pub use Output.*
unfoldable pub use Markup.*
unfoldable pub use Validate.*
unfoldable pub use Contexts.*
unfoldable pub use Service.*
