-- ===== src/Persistence/Schema/Supports.antt =====
-- Which databases can be brought up to date: what each statement of the schema reads, and which statements
-- before it, or which columns of the old database, provide that.
use mathlib.Core.Path.{subst}
use merge_mate.Base.{
  String, Bool, true, false, not, ◌&&◌, ◌||◌, List, [], ◌∷◌, ◌≡◌, refl, sym, ap, ◌∙◌, str_eq,
  eq_iff, elem, All, Bool-cases, inl, inr, arith,
}
use merge_mate.Persistence.Schema.{
  Schema, Database, Ddl, creates_table, creates_index, creates_unique_index, creates_search,
  ensures_column, creates_trigger, table_exists, has_column, has_columns, has_pair, distinct,
  create_table,
}
use merge_mate.Persistence.Schema.Steps.{is_done, get_entry-append}

-- The columns that the indexes and the full-text tables read, but for those that are added: each with
-- its table.
abbrev pub base_columns : List (String × String)
base_columns =
    ("agent_runs", "run_id")
    ∷ ("agent_runs", "chat_id")
    ∷ ("agent_runs", "agent_name")
    ∷ ("agent_runs", "workflow")
    ∷ ("agent_runs", "status")
    ∷ ("agent_runs", "prompt")
    ∷ ("agent_runs", "result_text")
    ∷ ("agent_runs", "error_text")
    ∷ ("agent_runs", "created_at")
    ∷ ("conversation_messages", "chat_id")
    ∷ ("conversation_messages", "content")
    ∷ ("conversation_messages", "created_at")
    ∷ ("run_jobs", "run_id")
    ∷ ("run_jobs", "job_type")
    ∷ ("run_jobs", "status")
    ∷ ("run_jobs", "queued_at")
    ∷ ("learning_entries", "chat_id")
    ∷ ("learning_entries", "created_at")
    ∷ ("tool_events", "run_id")
    ∷ ("tool_events", "created_at")
    ∷ ("repo_knowledge", "chat_id")
    ∷ ("repo_knowledge", "repo_name")
    ∷ ("repo_knowledge", "created_at")
    ∷ []

-- Each of these columns is there if its table is.
unfoldable pub has_base : List (String × String) → Schema → Bool
has_base [] db = true
has_base ((t, c) ∷ rest) db = (not (table_exists t db) || has_column t c db) && has_base rest db

-- The databases that can be brought up to date.
abbrev pub is_upgradable : Database → Bool
is_upgradable d = has_base base_columns d.tables && distinct d.active_jobs

module _ (base : List (String × String)) where
  abbrev pub HasBase : Schema → Type 0
  HasBase db =
      (t c : String)
      → has_pair t c base ≡ true
      → table_exists t db ≡ true
      → has_column t c db ≡ true

  -- The statements before this one give it the tables and columns that it reads.
  abbrev pub creates : String → Ddl → Bool
  creates t (creates_table t' columns) = str_eq t t'
  creates t (creates_index n t' columns) = false
  creates t (creates_unique_index n t' columns) = false
  creates t (creates_search n t' columns) = false
  creates t (ensures_column t' c) = false
  creates t (creates_trigger n t') = false

  abbrev pub ensures : String → String → Ddl → Bool
  ensures t c (creates_table t' columns) = false
  ensures t c (creates_index n t' columns) = false
  ensures t c (creates_unique_index n t' columns) = false
  ensures t c (creates_search n t' columns) = false
  ensures t c (ensures_column t' c') = str_eq t t' && str_eq c c'
  ensures t c (creates_trigger n t') = false

  unfoldable pub some_creates : List Ddl → String → Bool
  some_creates [] t = false
  some_creates (s ∷ ss) t = creates t s || some_creates ss t

  unfoldable pub some_ensures : List Ddl → String → String → Bool
  some_ensures [] t c = false
  some_ensures (s ∷ ss) t c = ensures t c s || some_ensures ss t c

  unfoldable pub readable : List Ddl → String → List String → Bool
  unfolding some_creates some_ensures has_pair
  readable before t [] = true
  readable before t (c ∷ cs) =
      (has_pair t c base && some_creates before t || some_ensures before t c)
      && readable before t cs

  -- A new table has the columns of this list that are its own.
  unfoldable pub covers : String → List String → List (String × String) → Bool
  covers t columns [] = true
  covers t columns ((t', c) ∷ rest) = (not (str_eq t' t) || elem c columns) && covers t columns rest

  abbrev pub supported : List Ddl → Ddl → Bool
  supported before (creates_table t columns) = covers t columns base
  supported before (creates_index n t columns) = readable before t columns
  supported before (creates_unique_index n t columns) = readable before t columns
  supported before (creates_search n t columns) =
      covers n ("search_text" ∷ []) base && readable before t columns
  supported before (ensures_column t c) = some_creates before t
  supported before (creates_trigger n t) = some_creates before t

  unfoldable pub all_supported : List Ddl → List Ddl → Bool
  unfolding covers readable
  all_supported before [] = true
  all_supported before (s ∷ ss) = supported before s && all_supported (s ∷ before) ss

  abbrev pub IsDone : List Ddl → Database → Type 0
  IsDone ss d = All (λ s. is_done s d ≡ true) ss

  creates-one :
      (s : Ddl) (d : Database) (t : String)
      → is_done s d ≡ true
      → creates t s ≡ true
      → table_exists t d.tables ≡ true
  creates-one (creates_table t' columns) d t h e =
      ap (λ k. table_exists k d.tables) ((eq_iff t t').0 e) ∙ h
  creates-one (creates_index n t' columns) d t h e = cc
  creates-one (creates_unique_index n t' columns) d t h e = cc
  creates-one (creates_search n t' columns) d t h e = cc
  creates-one (ensures_column t' c) d t h e = cc
  creates-one (creates_trigger n t') d t h e = cc

  ensures-one :
      (s : Ddl) (d : Database) (t c : String)
      → is_done s d ≡ true
      → ensures t c s ≡ true
      → has_column t c d.tables ≡ true
  ensures-one (creates_table t' columns) d t c h e = cc
  ensures-one (creates_index n t' columns) d t c h e = cc
  ensures-one (creates_unique_index n t' columns) d t c h e = cc
  ensures-one (creates_search n t' columns) d t c h e = cc
  ensures-one (ensures_column t' c') d t c h e =
      let a : t ≡ t' = (eq_iff t t').0 (ground (arith, e)) in
      let b : c ≡ c' = (eq_iff c c').0 (ground (arith, e)) in
      ap (λ x. has_column x c d.tables) a ∙ (ap (λ x. has_column t' x d.tables) b ∙ h)
  ensures-one (creates_trigger n t') d t c h e = cc

  pub creates-there :
      (ss : List Ddl) (d : Database) (t : String)
      → IsDone ss d
      → some_creates ss t ≡ true
      → table_exists t d.tables ≡ true
  unfolding some_creates
  creates-there [] d t h e = cc
  creates-there (s ∷ ss) d t h e = elim (Bool-cases (creates t s)) [
    | inl here ↦ creates-one s d t h.0 here
    | inr other ↦ creates-there ss d t h.1 (ground (arith, e, other))
  ]

  ensures-there :
      (ss : List Ddl) (d : Database) (t c : String)
      → IsDone ss d
      → some_ensures ss t c ≡ true
      → has_column t c d.tables ≡ true
  unfolding some_ensures
  ensures-there [] d t c h e = cc
  ensures-there (s ∷ ss) d t c h e = elim (Bool-cases (ensures t c s)) [
    | inl here ↦ ensures-one s d t c h.0 here
    | inr other ↦ ensures-there ss d t c h.1 (ground (arith, e, other))
  ]

  pub readable-there :
      (ss : List Ddl) (d : Database) (t : String) (cs : List String)
      → IsDone ss d
      → HasBase d.tables
      → readable ss t cs ≡ true
      → has_columns t cs d.tables ≡ true
  unfolding readable has_columns
  readable-there ss d t [] done base_there e = refl
  readable-there ss d t (c ∷ cs) done base_there e =
      let rest = readable-there ss d t cs done base_there (ground (arith, e)) in
      let here : has_column t c d.tables ≡ true = elim (Bool-cases (some_ensures ss t c)) [
        | inl f ↦ ensures-there ss d t c done f
        | inr f ↦
            let listed : has_pair t c base ≡ true = ground (arith, e, f) in
            let made : some_creates ss t ≡ true = ground (arith, e, f) in
            base_there t c listed (creates-there ss d t done made)
      ] in
      ground (arith, here, rest)

  covers-column :
      (t : String) (columns : List String) (rest : List (String × String)) (c : String)
      → has_pair t c rest ≡ true
      → covers t columns rest ≡ true
      → elem c columns ≡ true
  unfolding has_pair covers
  covers-column t columns [] c h e = cc
  covers-column t columns ((t', c') ∷ rest) c h e = elim (Bool-cases (str_eq t t' && str_eq c c')) [
    | inl both ↦
        let same_table : str_eq t' t ≡ true = ground (arith, both, eq_iff t t', eq_iff t' t) in
        let same_column : c' ≡ c = sym ((eq_iff c c').0 (ground (arith, both))) in
        let listed : elem c' columns ≡ true = ground (arith, e, same_table) in
        ap (λ x. elem x columns) (sym same_column) ∙ listed
    | inr other ↦ covers-column t columns rest c (ground (arith, h, other)) (ground (arith, e))
  ]

  pub create_table-HasBase :
      (t : String) (columns : List String) (db : Schema)
      → covers t columns base ≡ true
      → HasBase db
      → HasBase (create_table t columns db)
  unfolding create_table table_exists has_column
  create_table-HasBase t columns db e h k c listed there = elim (Bool-cases (table_exists t db)) [
    | inl old ↦
        let same : create_table t columns db ≡ db = rw old refl in
        subst (λ x. has_column k c x ≡ true) (sym same)
          (h k c listed (subst (λ x. table_exists k x ≡ true) same there))
    | inr new ↦ elim (Bool-cases (str_eq t k)) [
      | inl same ↦
          let at : t ≡ k = (eq_iff t k).0 same in
          let has : elem c columns ≡ true =
            covers-column t columns base c (subst (λ x. has_pair x c base ≡ true) (sym at) listed)
              e in
          let gone : table_exists k db ≡ false = subst (λ x. table_exists x db ≡ false) at new in
          ground (arith, new, has, gone, same, get_entry-append k t columns db)
      | inr other ↦
          let before = h k c listed in
          ground (arith, new, there, before, other, get_entry-append k t columns db)
    ]
  ]
