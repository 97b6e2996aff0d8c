-- ===== src/Metrics/Lifecycle.antt =====
-- internal/metrics/lifecycle.go: timestamped lifecycle records.
use browser_analysis.Prelude.{ℕ}

pub data EventType : Type 0 where
  task_created worker_started : EventType
  browser_launch_started browser_launch_completed browser_connected : EventType
  context_create_started context_create_completed : EventType
  page_create_started page_create_completed : EventType
  navigation_started navigation_completed : EventType
  workflow_started workflow_completed task_finished : EventType

pub record LifecycleEvent : Type 0 where
  pub at : ℕ
  pub event_type : EventType
  pub worker_id : ℕ
  pub task_id : ℕ
  pub browser_id : ℕ
  pub context_id : ℕ
  pub page_id : ℕ

-- `LifecycleEvent{Type: t, At: now, TaskID: id}`.
abbrev pub event : EventType → ℕ → ℕ → LifecycleEvent
event t now id = record {
  at = now;
  event_type = t;
  worker_id = 0;
  task_id = id;
  browser_id = 0;
  context_id = 0;
  page_id = 0;
}
