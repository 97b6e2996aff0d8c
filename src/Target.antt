-- ===== src/Target.antt =====
-- target/backend: the synthetic application that the benchmark loads.
pub mod Tables
pub mod Store
pub mod Handlers
pub mod Hub
mod Tests
