-- ===== src/Metrics.antt =====
-- internal/metrics: what a run records.
pub mod Lifecycle
pub mod Recorder
pub mod Sampler
