-- ===== src/Storage.antt =====
-- src/aiops_apm/storage: the in-memory stores, which the repository calls the reference of the
-- PostgreSQL ones. A store is a value that each operation returns anew.
pub mod DetectionState
pub mod Records
pub mod Lease
pub mod Sequence
pub mod Rounds
pub mod Dynamic
pub mod Targets
pub mod Domains
pub mod Watermarks
