-- ===== src/Persistence/Schema.antt =====
-- src/mergemate/infrastructure/persistence/sqlite_schema.py, `initialize_sqlite_database`, as its list of
-- statements. A database is its tables with the names of their columns, the names of its indexes and
-- triggers, and what the unique index on the active jobs looks at. Names of tables and of indexes are
-- taken to be apart.
pub mod Steps
pub mod Supports
pub mod Progress
pub mod Migrations
pub mod Triggers
use merge_mate.Base.{
  ℕ, String, Bool, true, false, not, ◌&&◌, ◌||◌, Option, none, some, List, [], ◌∷◌, ◌++◌,
  if◌then◌else◌, str_eq, elem,
}
use merge_mate.Config.{get_entry}

-- The tables, in the order of their creation, each with its columns.
abbrev pub Schema : Type 0
Schema = List (String × List String)

abbrev pub is_there : Option (List String) → Bool
is_there none = false
is_there (some columns) = true

abbrev pub has_name : String → Option (List String) → Bool
has_name column none = false
has_name column (some columns) = elem column columns

-- `_table_exists`, and the test of `_ensure_column`.
unfoldable pub table_exists : String → Schema → Bool
table_exists table db = is_there (get_entry table db)

unfoldable pub has_column : String → String → Schema → Bool
has_column table column db = has_name column (get_entry table db)

-- `CREATE TABLE IF NOT EXISTS`
unfoldable pub create_table : String → List String → Schema → Schema
create_table table columns db = if table_exists table db then db else db ++ (table, columns) ∷ []

-- `ALTER TABLE … ADD COLUMN`
unfoldable pub add_column : String → String → Schema → Schema
add_column table column [] = []
add_column table column ((t, columns) ∷ db) =
    if str_eq t table
    then (t, columns ++ column ∷ []) ∷ db
    else (t, columns) ∷ add_column table column db

-- `_ensure_column`; none is the OperationalError for a table that is not there.
unfoldable pub ensure_column : String → String → Schema → Option Schema
unfolding add_column
ensure_column table column db =
    if has_column table column db
    then some db
    else if table_exists table db
    then some (add_column table column db)
    else none

unfoldable pub has_columns : String → List String → Schema → Bool
unfolding has_column
has_columns table [] db = true
has_columns table (c ∷ cs) db = has_column table c db && has_columns table cs db

-- `active_jobs` has the run and the type of every job of `run_jobs` that is queued or running.
pub record Database : Type 0 where
  pub tables : Schema
  pub indexes : List String
  pub triggers : List String
  pub active_jobs : List (String × String)

unfoldable pub has_pair : String → String → List (String × String) → Bool
has_pair a b [] = false
has_pair a b ((c, d) ∷ rest) = (str_eq a c && str_eq b d) || has_pair a b rest

unfoldable pub distinct : List (String × String) → Bool
unfolding has_pair
distinct [] = true
distinct ((a, b) ∷ rest) = not (has_pair a b rest) && distinct rest

-- A statement, or a helper that makes one: `CREATE TABLE IF NOT EXISTS`; `CREATE INDEX IF NOT EXISTS`;
-- the unique index on the active jobs; `_ensure_column`; the creation of a full-text table and its
-- rebuild, which reads these columns of the base table; and `CREATE TRIGGER IF NOT EXISTS`.
pub data Ddl : Type 0 where
  creates_table : String → List String → Ddl
  creates_index creates_unique_index creates_search : String → String → List String → Ddl
  ensures_column creates_trigger : String → String → Ddl

abbrev pub with_index : String → Database → Database
with_index name d = record d { indexes = d.indexes ++ name ∷ [] }

-- What an ALTER leaves: the database as it was, if it raised.
abbrev pub altered : Option Schema → Database → Bool × Database
altered none d = (false, d)
altered (some db) d = (true, record d { tables = db })

-- One statement: false is an OperationalError or an IntegrityError. What was created before the error
-- stays, as SQLite commits these statements one by one; so a full-text table stays whose rebuild fails.
unfoldable pub execute : Ddl → Database → Bool × Database
unfolding create_table ensure_column has_columns distinct
execute (creates_table table columns) d =
    (true, record d { tables = create_table table columns d.tables })
execute (creates_index name table columns) d =
    if elem name d.indexes
    then (true, d)
    else if has_columns table columns d.tables
    then (true, with_index name d)
    else (false, d)
execute (creates_unique_index name table columns) d =
    if elem name d.indexes
    then (true, d)
    else if has_columns table columns d.tables && distinct d.active_jobs
    then (true, with_index name d)
    else (false, d)
execute (ensures_column table column) d = altered (ensure_column table column d.tables) d
execute (creates_search name table columns) d = if table_exists name d.tables then (true, d) else (
  has_columns table columns d.tables,
  record d { tables = create_table name ("search_text" ∷ []) d.tables },
)
execute (creates_trigger name table) d =
    if elem name d.triggers
    then (true, d)
    else if table_exists table d.tables
    then (true, record d { triggers = d.triggers ++ name ∷ [] })
    else (false, d)

abbrev pub and_then : Bool × Database → (Database → Bool × Database) → Bool × Database
and_then r next = if r.0 then next r.1 else (false, r.1)

-- The statements one after the other, up to the first that raises.
unfoldable pub execute_all : List Ddl → Database → Bool × Database
unfolding execute
execute_all [] d = (true, d)
execute_all (s ∷ ss) d = and_then (execute s d) (execute_all ss)

-- The statements of `initialize_sqlite_database`.
abbrev pub script : List Ddl
script =
    creates_table "agent_runs" (
      "run_id" ∷ "chat_id" ∷ "user_id" ∷ "agent_name" ∷ "workflow" ∷ "repo_name" ∷ "status"
      ∷ "current_stage" ∷ "prompt" ∷ "estimate_seconds" ∷ "plan_text" ∷ "design_text" ∷ "test_text"
      ∷ "review_text" ∷ "review_iterations" ∷ "approved" ∷ "result_text" ∷ "error_text"
      ∷ "created_at" ∷ "updated_at" ∷ [])
    ∷ creates_table "conversation_messages"
        ("id" ∷ "chat_id" ∷ "role" ∷ "content" ∷ "created_at" ∷ [])
    ∷ creates_table "run_jobs" (
        "job_id" ∷ "run_id" ∷ "job_type" ∷ "status" ∷ "attempt_count" ∷ "lease_owner"
        ∷ "lease_expires_at" ∷ "last_heartbeat_at" ∷ "error_text" ∷ "queued_at" ∷ "started_at"
        ∷ "finished_at" ∷ "updated_at" ∷ [])
    ∷ creates_table "learning_entries"
        ("id" ∷ "chat_id" ∷ "workflow" ∷ "prompt" ∷ "result_excerpt" ∷ "created_at" ∷ [])
    ∷ creates_table "tool_events"
        ("id" ∷ "run_id" ∷ "tool_name" ∷ "action" ∷ "status" ∷ "detail" ∷ "created_at" ∷ [])
    ∷ creates_index "idx_agent_runs_chat_id_created_at" "agent_runs" ("chat_id" ∷ "created_at" ∷ [])
    ∷ creates_index "idx_conversation_messages_chat_id_created_at" "conversation_messages"
        ("chat_id" ∷ "created_at" ∷ [])
    ∷ creates_index "idx_run_jobs_run_id_queued_at" "run_jobs" ("run_id" ∷ "queued_at" ∷ [])
    ∷ creates_unique_index "idx_run_jobs_unique_active_job" "run_jobs"
        ("run_id" ∷ "job_type" ∷ "status" ∷ [])
    ∷ creates_index "idx_learning_entries_chat_id_created_at" "learning_entries"
        ("chat_id" ∷ "created_at" ∷ [])
    ∷ creates_index "idx_tool_events_run_id_created_at" "tool_events" ("run_id" ∷ "created_at" ∷ [])
    ∷ creates_table "repo_knowledge"
        ("id" ∷ "chat_id" ∷ "repo_name" ∷ "topic" ∷ "summary" ∷ "created_at" ∷ [])
    ∷ creates_index "idx_repo_knowledge_chat_repo" "repo_knowledge"
        ("chat_id" ∷ "repo_name" ∷ "created_at" ∷ [])
    ∷ []

abbrev pub added_columns : List Ddl
added_columns =
    ensures_column "agent_runs" "current_stage"
    ∷ ensures_column "agent_runs" "plan_text"
    ∷ ensures_column "agent_runs" "design_text"
    ∷ ensures_column "agent_runs" "test_text"
    ∷ ensures_column "agent_runs" "review_text"
    ∷ ensures_column "agent_runs" "review_iterations"
    ∷ ensures_column "agent_runs" "approved"
    ∷ ensures_column "run_jobs" "attempt_count"
    ∷ ensures_column "run_jobs" "lease_owner"
    ∷ ensures_column "run_jobs" "lease_expires_at"
    ∷ ensures_column "learning_entries" "learning_lessons"
    ∷ ensures_column "run_jobs" "last_heartbeat_at"
    ∷ ensures_column "agent_runs" "repo_name"
    ∷ []

abbrev pub searches : List Ddl
searches =
    creates_search "agent_runs_fts" "agent_runs" (
      "run_id" ∷ "agent_name" ∷ "workflow" ∷ "repo_name" ∷ "status" ∷ "current_stage" ∷ "prompt"
      ∷ "plan_text" ∷ "design_text" ∷ "test_text" ∷ "review_text" ∷ "result_text" ∷ "error_text"
      ∷ [])
    ∷ creates_search "conversation_messages_fts" "conversation_messages" ("content" ∷ [])
    ∷ []

-- `_ensure_search_triggers`
abbrev pub search_triggers : List Ddl
search_triggers =
    creates_trigger "agent_runs_ai" "agent_runs"
    ∷ creates_trigger "agent_runs_ad" "agent_runs"
    ∷ creates_trigger "agent_runs_au" "agent_runs"
    ∷ creates_trigger "conversation_messages_ai" "conversation_messages"
    ∷ creates_trigger "conversation_messages_ad" "conversation_messages"
    ∷ creates_trigger "conversation_messages_au" "conversation_messages"
    ∷ []

abbrev pub statements : List Ddl
statements = script ++ added_columns ++ searches ++ search_triggers

unfoldable pub initialize : Database → Bool × Database
unfolding execute_all
initialize d = execute_all statements d
