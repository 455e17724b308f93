-- ===== src/Persistence/Schema/Progress.antt =====
-- Statements that are supported by those before them succeed, one after the other, and keep the columns that
-- they read.
use mathlib.Core.Path.{subst}
use merge_mate.Base.{
  String, Bool, true, ◌&&◌, List, [], ◌∷◌, ◌≡◌, refl, sym, ap, ◌∙◌, str_eq, eq_iff, All-mp,
  Bool-cases, inl, inr, arith,
}
use merge_mate.Persistence.Schema.{
  Schema, Database, Ddl, creates_table, creates_index, creates_unique_index, creates_search,
  ensures_column, creates_trigger, table_exists, has_column, has_pair, distinct, create_table,
  add_column, ensure_column, execute, execute_all,
}
use merge_mate.Persistence.Schema.Steps.{
  is_done-Keeps, execute-IsStep, add_column-table, add_column-Keeps,
}
use merge_mate.Persistence.Schema.Supports.{
  has_base, HasBase, supported, all_supported, IsDone, create_table-HasBase, creates-there,
  readable-there,
}

pub has_base-HasBase :
    (base : List (String × String)) (db : Schema) → has_base base db ≡ true → HasBase base db
unfolding has_base has_pair
has_base-HasBase [] db e t c listed there = cc
has_base-HasBase ((t', c') ∷ rest) db e t c listed there =
    elim (Bool-cases (str_eq t t' && str_eq c c')) [
      | inl both ↦
          let a : t ≡ t' = (eq_iff t t').0 (ground (arith, both)) in
          let b : c ≡ c' = (eq_iff c c').0 (ground (arith, both)) in
          let there' : table_exists t' db ≡ true = subst (λ x. table_exists x db ≡ true) a there in
          let here : has_column t' c' db ≡ true = ground (arith, e, there') in
          ap (λ x. has_column x c db) a ∙ (ap (λ x. has_column t' x db) b ∙ here)
      | inr other ↦
          has_base-HasBase rest db (ground (arith, e)) t c (ground (arith, listed, other)) there
    ]

module _ (base : List (String × String)) where
  unchanged-HasBase :
      (x : Bool × Database) (d : Database)
      → x.1.tables ≡ d.tables
      → HasBase base d.tables
      → HasBase base x.1.tables
  unchanged-HasBase x d same h = subst (HasBase base) (sym same) h

  search-tables :
      (n t : String) (columns : List String) (d : Database)
      → (execute (creates_search n t columns) d).1.tables
        ≡ create_table n ("search_text" ∷ []) d.tables
  unfolding execute create_table
  search-tables n t columns d = elim (Bool-cases (table_exists n d.tables)) [
    | inl f ↦ rw f refl
    | inr f ↦ rw f refl
  ]

  ensure-HasBase :
      (t c : String) (d : Database)
      → HasBase base d.tables
      → HasBase base (execute (ensures_column t c) d).1.tables
  unfolding execute ensure_column
  ensure-HasBase t c d h = elim (Bool-cases (has_column t c d.tables)) [
    | inl e ↦ rw e h
    | inr e ↦ elim (Bool-cases (table_exists t d.tables)) [
      | inl f ↦
          rw (e, f)
            (λ k col listed there.
              (execute-kept k col) (h k col listed (add_column-table k t c d.tables there)))
      | inr f ↦ rw (e, f) h
    ]
  ]
    where
      execute-kept :
          (k col : String)
          → has_column k col d.tables ≡ true
          → has_column k col (add_column t c d.tables) ≡ true
      execute-kept k col x = (add_column-Keeps t c d.tables).1 k col x

  execute-HasBase :
      (before : List Ddl) (s : Ddl) (d : Database)
      → supported base before s ≡ true
      → HasBase base d.tables
      → HasBase base (execute s d).1.tables
  unfolding execute
  execute-HasBase before (creates_table t columns) d e h =
      unfold create_table in create_table-HasBase base t columns d.tables e h
  execute-HasBase before (creates_index n t columns) d e h =
      unchanged-HasBase (execute (creates_index n t columns) d) d (ground arith) h
  execute-HasBase before (creates_unique_index n t columns) d e h =
      unchanged-HasBase (execute (creates_unique_index n t columns) d) d (ground arith) h
  execute-HasBase before (creates_search n t columns) d e h =
      let made = create_table-HasBase base n ("search_text" ∷ []) d.tables (ground (arith, e)) h in
      unchanged-HasBase (execute (creates_search n t columns) d)
        (record d { tables = create_table n ("search_text" ∷ []) d.tables })
        (search-tables n t columns d) made
  execute-HasBase before (ensures_column t c) d e h = ensure-HasBase t c d h
  execute-HasBase before (creates_trigger n t) d e h =
      unchanged-HasBase (execute (creates_trigger n t) d) d (ground arith) h

  execute-succeeds :
      (before : List Ddl) (s : Ddl) (d : Database)
      → supported base before s ≡ true
      → IsDone base before d
      → HasBase base d.tables
      → distinct d.active_jobs ≡ true
      → (execute s d).0 ≡ true
  unfolding execute ensure_column
  execute-succeeds before (creates_table t columns) d e done h u = refl
  execute-succeeds before (creates_index n t columns) d e done h u =
      let reads = readable-there base before d t columns done h e in ground (arith, reads)
  execute-succeeds before (creates_unique_index n t columns) d e done h u =
      let reads = readable-there base before d t columns done h e in ground (arith, reads, u)
  execute-succeeds before (creates_search n t columns) d e done h u =
      let reads = readable-there base before d t columns done h (ground (arith, e)) in
      ground (arith, reads)
  execute-succeeds before (ensures_column t c) d e done h u =
      let there = creates-there base before d t done e in
      elim (Bool-cases (has_column t c d.tables)) [ inl f ↦ rw f refl | inr f ↦ rw (f, there) refl ]
  execute-succeeds before (creates_trigger n t) d e done h u =
      let there = creates-there base before d t done e in ground (arith, there)

  IsDone-execute :
      (before : List Ddl) (s : Ddl) (d : Database)
      → IsDone base before d
      → IsDone base before (execute s d).1
  IsDone-execute before s d done =
      All-mp _ _ (λ x h. is_done-Keeps x d (execute s d).1 (execute-IsStep s d).0 h) before done

  -- Supported statements all succeed.
  pub execute_all-succeeds :
      (before ss : List Ddl) (d : Database)
      → all_supported base before ss ≡ true
      → IsDone base before d
      → HasBase base d.tables
      → distinct d.active_jobs ≡ true
      → (execute_all ss d).0 ≡ true
  unfolding execute_all all_supported
  execute_all-succeeds before [] d e done h u = refl
  execute_all-succeeds before (s ∷ ss) d e done h u =
      let first : supported base before s ≡ true = ground (arith, e) in
      let good = execute-succeeds before s d first done h u in
      let step = execute-IsStep s d in
      let rest =
        execute_all-succeeds (s ∷ before) ss (execute s d).1 (ground (arith, e))
          (step.1 good, IsDone-execute before s d done) (execute-HasBase before s d first h)
          (ap distinct step.2 ∙ u) in
      rw good rest

  pub execute_all-HasBase :
      (before ss : List Ddl) (d : Database)
      → all_supported base before ss ≡ true
      → HasBase base d.tables
      → HasBase base (execute_all ss d).1.tables
  unfolding execute_all all_supported
  execute_all-HasBase before [] d e h = h
  execute_all-HasBase before (s ∷ ss) d e h =
      let first : supported base before s ≡ true = ground (arith, e) in
      let kept = execute-HasBase before s d first h in
      elim (Bool-cases (execute s d).0) [
        | inl f ↦
            rw f (execute_all-HasBase (s ∷ before) ss (execute s d).1 (ground (arith, e)) kept)
        | inr f ↦ rw f kept
      ]
