-- ===== src/Examples.antt =====
-- Concrete inputs: the theorems applied to them, and runs of the definitions.
pub mod Data
pub mod Replies
pub mod Images
pub mod Files
pub mod Joins
pub mod Plists
pub mod Envelopes
pub mod Pipelines
pub mod Sessions
pub mod Snapshots
pub mod Manifests
pub mod Fetches
pub mod Probes
pub mod Programs
pub mod Live
