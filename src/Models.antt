-- ===== src/Models.antt =====
-- src/aiops_apm/models: the records that pass between the parts.
pub mod Float
pub mod Value
pub mod Signal
pub mod Anomaly
pub mod Config
pub mod Record
pub mod Fingerprint
