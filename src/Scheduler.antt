-- ===== src/Scheduler.antt =====
-- internal/scheduler: the driver that runs an experiment, and the closed loop of tasks it keeps going.
pub mod Driver
pub mod Loop
mod Tests
