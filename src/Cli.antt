-- ===== src/Cli.antt =====
-- cmd/bench: the command line.
pub mod Args
pub mod Flags
pub mod Quick
pub mod Sweep
pub mod Runs
pub mod Report
mod Samples
mod Tests
