-- ===== src/Persistence/ToolEvents.antt =====
-- src/mergemate/infrastructure/persistence/sqlite_repositories.py, `SQLiteToolEventRepository`; what it
-- records is in Application/Tools.antt.
use merge_mate.Base.{ℕ, String, Bool, List, str_eq}
use merge_mate.Persistence.Recent.{recent}

-- A row of `tool_events`.
pub record ToolEvent : Type 0 where
  pub run_id : String
  pub tool_name : String
  pub action : String
  pub status : String
  pub detail : String
  pub created_at : ℕ

abbrev pub of_run : String → ToolEvent → Bool
of_run run e = str_eq e.run_id run

abbrev pub event_time : ToolEvent → ℕ
event_time e = e.created_at

unfoldable pub list_for_run : String → ℕ → List ToolEvent → List ToolEvent
list_for_run run limit rows = recent event_time (of_run run) limit rows
