-- ===== src/Persistence/Schema/Migrations.antt =====
-- What a database has after it was initialized.
use mathlib.Core.Path.{subst}
use merge_mate.Base.{
  ℕ, zero, suc, drop, String, Bool, true, List, [], ◌∷◌, ◌≡◌, refl, sym, ap, ◌∙◌, elem, All,
  Bool-cases, inl, inr, arith,
}
use merge_mate.Persistence.Schema.{
  Database, Ddl, table_exists, has_columns, execute, execute_all, statements, initialize,
}
use merge_mate.Persistence.Schema.Steps.{
  Keeps, Keeps-refl, Keeps-trans, is_done, is_done-Keeps, execute-again, execute-IsStep,
}
use merge_mate.Persistence.Schema.Progress.{
  has_base-HasBase, execute_all-succeeds, execute_all-HasBase,
}
use merge_mate.Persistence.Schema.Supports.{
  base_columns, is_upgradable, HasBase, all_supported, readable, readable-there,
}

execute_all-Keeps : (ss : List Ddl) (d : Database) → Keeps d (execute_all ss d).1
unfolding execute_all
execute_all-Keeps [] d = Keeps-refl d
execute_all-Keeps (s ∷ ss) d = elim (Bool-cases (execute s d).0) [
  | inl e ↦ rw e (
      Keeps-trans d (execute s d).1 (execute_all ss (execute s d).1).1 (execute-IsStep s d).0
        (execute_all-Keeps ss (execute s d).1))
  | inr e ↦ rw e (execute-IsStep s d).0
]

execute_all-cons :
    (s : Ddl) (ss : List Ddl) (d : Database)
    → (execute s d).0 ≡ true
    → execute_all (s ∷ ss) d ≡ execute_all ss (execute s d).1
unfolding execute_all
execute_all-cons s ss d e = rw e refl

execute_all-done :
    (ss : List Ddl) (d : Database)
    → (execute_all ss d).0 ≡ true
    → All (λ s. is_done s (execute_all ss d).1 ≡ true) ss
unfolding execute_all
execute_all-done [] d good = tt
execute_all-done (s ∷ ss) d good = elim (Bool-cases (execute s d).0) [
  | inl e ↦
      let d' = (execute s d).1 in
      let on = execute_all-cons s ss d e in
      subst (λ (r : Bool × Database). All (λ x. is_done x r.1 ≡ true) (s ∷ ss)) (sym on)
        (
          is_done-Keeps s d' (execute_all ss d').1 (execute_all-Keeps ss d')
              ((execute-IsStep s d).1 e),
          execute_all-done ss d' (sym (ap (λ (r : Bool × Database). r.0) on) ∙ good),
        )
  | inr e ↦ cc (rw e at good)
]

execute_all-again :
    (ss : List Ddl) (d : Database) → All (λ s. is_done s d ≡ true) ss → execute_all ss d ≡ (true, d)
unfolding execute_all
execute_all-again [] d h = refl
execute_all-again (s ∷ ss) d h = rw (execute-again s d h.0) (execute_all-again ss d h.1)

-- The columns of a table that the program relies on: those that an index or a full-text table reads, and
-- those that are added.
abbrev pub run_columns : List String
run_columns =
    "run_id" ∷ "chat_id" ∷ "agent_name" ∷ "workflow" ∷ "repo_name" ∷ "status" ∷ "current_stage"
    ∷ "prompt" ∷ "plan_text" ∷ "design_text" ∷ "test_text" ∷ "review_text" ∷ "review_iterations"
    ∷ "approved" ∷ "result_text" ∷ "error_text" ∷ "created_at" ∷ []

abbrev pub job_columns : List String
job_columns =
    "run_id" ∷ "job_type" ∷ "status" ∷ "queued_at" ∷ "attempt_count" ∷ "lease_owner"
    ∷ "lease_expires_at" ∷ "last_heartbeat_at" ∷ []

-- The tables have these columns, and the index that keeps the active jobs apart is there.
abbrev pub IsCurrent : Database → Type 0
IsCurrent d =
    (has_columns "agent_runs" run_columns d.tables ≡ true)
    × (has_columns "run_jobs" job_columns d.tables ≡ true)
    × (has_columns "conversation_messages" ("chat_id" ∷ "content" ∷ "created_at" ∷ []) d.tables
        ≡ true)
    × (has_columns "learning_entries" ("chat_id" ∷ "learning_lessons" ∷ "created_at" ∷ []) d.tables
        ≡ true)
    × (has_columns "tool_events" ("run_id" ∷ "created_at" ∷ []) d.tables ≡ true)
    × (has_columns "repo_knowledge" ("chat_id" ∷ "repo_name" ∷ "created_at" ∷ []) d.tables ≡ true)
    × (elem "idx_run_jobs_unique_active_job" d.indexes ≡ true)
    × (table_exists "agent_runs_fts" d.tables ≡ true)
    × (table_exists "conversation_messages_fts" d.tables ≡ true)

-- Nothing was dropped, every table, index, column, full-text table and trigger is there, and a second
-- initialization changes nothing.
abbrev pub IsMigrated : Database → Database → Type 0
IsMigrated d d' =
    Keeps d d'
    × IsCurrent d'
    × All (λ s. is_done s d' ≡ true) statements
    × (initialize d' ≡ (true, d'))

All-drop : (P : Ddl → Type 0) (n : ℕ) (ss : List Ddl) → All P ss → All P (drop n ss)
All-drop P zero ss h = h
All-drop P (suc n) [] h = h
All-drop P (suc n) (s ∷ ss) h = All-drop P n ss h.1

-- Where all statements are done, the program has what it relies on.
is_done-IsCurrent :
    (d : Database)
    → All (λ s. is_done s d ≡ true) statements
    → HasBase base_columns d.tables
    → IsCurrent d
unfolding readable elem
is_done-IsCurrent d done h =
    let reads : (t : String) (cs : List String)
        → readable base_columns statements t cs ≡ true
        → has_columns t cs d.tables ≡ true =
      λ t cs e. readable-there base_columns statements d t cs done h e in
    let is_left : Ddl → Type 0 = λ s. is_done s d ≡ true in
    (
      reads "agent_runs" run_columns refl,
      reads "run_jobs" job_columns refl,
      reads "conversation_messages" _ refl,
      reads "learning_entries" _ refl,
      reads "tool_events" _ refl,
      reads "repo_knowledge" _ refl,
      (All-drop is_left 8 statements done).0,
      (All-drop is_left 26 statements done).0,
      (All-drop is_left 27 statements done).0,
    )

statements-supported : all_supported base_columns [] statements ≡ true
unfolding all_supported elem
statements-supported = refl

-- If the tables that a database has include the columns that the indexes and the full-text tables
-- read, but for those that are added, and no two active jobs are of one run and type, then
-- initialize_sqlite_database succeeds, drops no table, column, index or trigger, and has the
-- effect of every statement in place: each table then has the columns read there and the added
-- ones, and the unique index on active jobs and the full-text tables are there. A second one
-- changes nothing.
pub initialize-IsMigrated :
    (d : Database)
    → is_upgradable d ≡ true
    → ((initialize d).0 ≡ true) × IsMigrated d (initialize d).1
unfolding initialize
initialize-IsMigrated d e =
    let base_there = has_base-HasBase base_columns d.tables (ground (arith, e)) in
    let good : (initialize d).0 ≡ true =
      execute_all-succeeds base_columns [] statements d statements-supported tt base_there
        (ground (arith, e)) in
    let done = execute_all-done statements d good in
    let d' = (initialize d).1 in
    let base_after =
      execute_all-HasBase base_columns [] statements d statements-supported base_there in
    (
      good,
      (
        execute_all-Keeps statements d,
        is_done-IsCurrent d' done base_after,
        done,
        execute_all-again statements d' done,
      ),
    )

-- Whether it succeeds or raises, it drops nothing.
pub initialize-Keeps : (d : Database) → Keeps d (initialize d).1
unfolding initialize
initialize-Keeps d = execute_all-Keeps statements d
