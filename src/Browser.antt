-- ===== src/Browser.antt =====
-- internal/browser: the executor that drives a page, and the worker that launches a browser per task.
pub mod Page
pub mod Worker
mod Tests
