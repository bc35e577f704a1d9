-- ===== src/Run.antt =====
-- app/domain/pipeline.py: `PipelineRun`, its counters and its completion.
mod Entity
mod Construct
mod Methods
pub mod Invariant
pub mod Preserved
unfoldable pub use Entity.*
unfoldable pub use Construct.*
unfoldable pub use Methods.*
