-- ===== src/Store.antt =====
-- app/infrastructure/db/repositories: the rows of the database, and what the repositories do with them. A row holds the
-- columns of its entity; of the database's own constraints the unique ones are modelled.
mod Rows
pub mod Equal
mod Runs
mod Fetches
mod News
mod Sources
mod Attempts
mod Digests
mod Creation
pub mod Post
pub mod Change
pub mod RunRows
pub mod NewsRows
pub mod Insertion
pub mod Consumed
pub mod Grown
pub mod Kept
unfoldable pub use Rows.*
unfoldable pub use Runs.*
unfoldable pub use Fetches.*
unfoldable pub use News.*
unfoldable pub use Sources.*
unfoldable pub use Creation.*
unfoldable pub use Attempts.*
unfoldable pub use Digests.*
