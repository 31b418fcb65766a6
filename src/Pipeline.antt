-- ===== src/Pipeline.antt =====
-- src/aiops_apm/pipeline: the funnel of one round.
pub mod Grouping
pub mod Filter
pub mod Suppress
pub mod Detect
pub mod Correlate
pub mod Verify
pub mod Emit
pub mod Runner
pub mod Context
