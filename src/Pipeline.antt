-- ===== src/Pipeline.antt =====
-- app/application/pipeline.py: `DigestPipelineService`.
mod Counters
mod Flow
mod Select
mod Service
pub mod Sums
pub mod Ingested
pub mod Leads
pub mod Ends
pub mod Recorded
pub mod Recovers
unfoldable pub use Counters.*
unfoldable pub use Flow.*
unfoldable pub use Select.*
unfoldable pub use Service.*
