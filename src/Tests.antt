-- ===== src/Tests.antt =====
-- The theorems applied to concrete inputs, and runs of the definitions.
pub mod Samples
mod Runs
mod Attempts
mod Digests
mod Deliveries
mod Rendering
mod Selection
mod Others
mod Ingestion
mod Pipelines
mod Repositories
mod Resolving
mod Cleanups
