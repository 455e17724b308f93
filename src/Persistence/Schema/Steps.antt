-- ===== src/Persistence/Schema/Steps.antt =====
-- What one statement of the schema does: it drops nothing, it leaves its object in place unless it
-- raises, and it does nothing where its object is there.
use mathlib.Core.Path.{subst}
use merge_mate.Base.{
  String, Bool, true, false, none, some, List, [], ◌∷◌, ◌++◌, ◌≡◌, refl, if◌then◌else◌, str_eq,
  eq_iff, eq_refl, elem, ◌&&◌, Bool-cases, Option-cases, inl, inr, arith,
}
use merge_mate.Config.{get_entry}
use merge_mate.Persistence.Schema.{
  Schema, Database, Ddl, creates_table, creates_index, creates_unique_index, creates_search,
  ensures_column, creates_trigger, table_exists, has_column, has_columns, distinct, create_table,
  add_column, ensure_column, with_index, execute,
}

elem-append : (c : String) (xs ys : List String) → elem c xs ≡ true → elem c (xs ++ ys) ≡ true
unfolding elem
elem-append c [] ys h = cc
elem-append c (x ∷ xs) ys h = ground (arith, h, elem-append c xs ys)

elem-last : (c : String) (xs : List String) → elem c (xs ++ c ∷ []) ≡ true
unfolding elem
elem-last c [] = rw (eq_refl c) refl
elem-last c (x ∷ xs) = ground (arith, elem-last c xs)

-- A change of the tables that drops no table and no column.
abbrev pub KeepsTables : Schema → Schema → Type 0
KeepsTables db db' =
    ((t : String) → table_exists t db ≡ true → table_exists t db' ≡ true)
    × ((t c : String) → has_column t c db ≡ true → has_column t c db' ≡ true)

-- A change of the database that also drops no index and no trigger.
abbrev pub Keeps : Database → Database → Type 0
Keeps d d' =
    KeepsTables d.tables d'.tables
    × ((n : String) → elem n d.indexes ≡ true → elem n d'.indexes ≡ true)
    × ((n : String) → elem n d.triggers ≡ true → elem n d'.triggers ≡ true)

pub Keeps-refl : (d : Database) → Keeps d d
Keeps-refl d = (((λ t h. h), λ t c h. h), (λ n h. h), λ n h. h)

pub Keeps-trans : (a b c : Database) → Keeps a b → Keeps b c → Keeps a c
Keeps-trans a b c h k = (
  ((λ t x. k.0.0 t (h.0.0 t x)), λ t col x. k.0.1 t col (h.0.1 t col x)),
  (λ n x. k.1 n (h.1 n x)),
  λ n x. k.2 n (h.2 n x),
)

pub get_entry-append :
    (k t : String) (columns : List String) (db : Schema)
    → get_entry k (db ++ (t, columns) ∷ []) ≡ elim (get_entry k db) [
      | some found ↦ some found
      | none ↦ if str_eq t k then some columns else none
    ]
unfolding get_entry
get_entry-append k t columns [] = refl
get_entry-append k t columns ((j, found) ∷ db) = ground (arith, get_entry-append k t columns db)

create_table-Keeps :
    (t : String) (columns : List String) (db : Schema) → KeepsTables db (create_table t columns db)
unfolding create_table table_exists has_column
create_table-Keeps t columns db = (
  λ k there. ground (arith, there, get_entry-append k t columns db),
  λ k c there. ground (arith, there, get_entry-append k t columns db),
)

create_table-there :
    (t : String) (columns : List String) (db : Schema)
    → table_exists t (create_table t columns db) ≡ true
unfolding create_table table_exists
create_table-there t columns db = ground (arith, get_entry-append t t columns db, eq_refl t)

pub get_entry-add_column :
    (k t c : String) (db : Schema)
    → get_entry k (add_column t c db) ≡ elim (get_entry k db) [
      | none ↦ none
      | some columns ↦ some (if str_eq t k then columns ++ c ∷ [] else columns)
    ]
unfolding get_entry add_column
get_entry-add_column k t c [] = refl
get_entry-add_column k t c ((j, columns) ∷ db) =
    ground (arith, eq_iff j k, eq_iff j t, eq_iff t k, get_entry-add_column k t c db)

pub add_column-Keeps : (t c : String) (db : Schema) → KeepsTables db (add_column t c db)
unfolding table_exists has_column
add_column-Keeps t c db = (
  λ k there. ground (arith, there, get_entry-add_column k t c db),
  λ k col there. elim (Option-cases (get_entry k db)) [
    | inl absent ↦ cc (rw absent at there)
    | inr (columns, found) ↦
        let here : elem col columns ≡ true = rw found at there in
        rw (get_entry-add_column k t c db, found)
          (ground (arith, here, elem-append col columns (c ∷ [])))
  ],
)

-- An added column makes no table.
pub add_column-table :
    (k t c : String) (db : Schema)
    → table_exists k (add_column t c db) ≡ true
    → table_exists k db ≡ true
unfolding table_exists
add_column-table k t c db h = elim (Option-cases (get_entry k db)) [
  | inl absent ↦ cc (rw (get_entry-add_column k t c db, absent) at h)
  | inr (columns, there) ↦ rw there refl
]

add_column-there :
    (t c : String) (db : Schema)
    → table_exists t db ≡ true
    → has_column t c (add_column t c db) ≡ true
unfolding table_exists has_column
add_column-there t c db h = elim (Option-cases (get_entry t db)) [
  | inl absent ↦ cc (rw absent at h)
  | inr (columns, found) ↦
      rw (get_entry-add_column t t c db, found, eq_refl t) (elem-last c columns)
]

new_table-Keeps :
    (t : String) (columns : List String) (db : Schema)
    → table_exists t db ≡ false
    → let db' = db ++ (t, columns) ∷ [] in KeepsTables db db' × (table_exists t db' ≡ true)
new_table-Keeps t columns db e =
    let same : create_table t columns db ≡ db ++ (t, columns) ∷ [] =
      unfold create_table in rw e refl in
    subst (λ x. KeepsTables db x × (table_exists t x ≡ true)) same
      (create_table-Keeps t columns db, create_table-there t columns db)

-- What a statement leaves in place.
abbrev pub is_done : Ddl → Database → Bool
is_done (creates_table t columns) d = table_exists t d.tables
is_done (creates_index n t columns) d = elem n d.indexes
is_done (creates_unique_index n t columns) d = elem n d.indexes
is_done (creates_search n t columns) d = table_exists n d.tables
is_done (ensures_column t c) d = has_column t c d.tables
is_done (creates_trigger n t) d = elem n d.triggers

pub is_done-Keeps :
    (s : Ddl) (d d' : Database) → Keeps d d' → is_done s d ≡ true → is_done s d' ≡ true
is_done-Keeps (creates_table t columns) d d' k h = k.0.0 t h
is_done-Keeps (creates_index n t columns) d d' k h = k.1 n h
is_done-Keeps (creates_unique_index n t columns) d d' k h = k.1 n h
is_done-Keeps (creates_search n t columns) d d' k h = k.0.0 n h
is_done-Keeps (ensures_column t c) d d' k h = k.0.1 t c h
is_done-Keeps (creates_trigger n t) d d' k h = k.2 n h

-- Where its object is there, a statement succeeds and changes nothing.
pub execute-again : (s : Ddl) (d : Database) → is_done s d ≡ true → execute s d ≡ (true, d)
unfolding execute create_table ensure_column
execute-again (creates_table t columns) d h = rw h refl
execute-again (creates_index n t columns) d h = rw h refl
execute-again (creates_unique_index n t columns) d h = rw h refl
execute-again (creates_search n t columns) d h = rw h refl
execute-again (ensures_column t c) d h = rw h refl
execute-again (creates_trigger n t) d h = rw h refl

-- What holds of a statement that is run.
abbrev pub IsStep : Ddl → Database → Bool × Database → Type 0
IsStep s d (good, d') =
    Keeps d d' × (good ≡ true → is_done s d' ≡ true) × (d'.active_jobs ≡ d.active_jobs)

with_index-Keeps : (n : String) (d : Database) → Keeps d (with_index n d)
with_index-Keeps n d =
    (((λ t h. h), λ t c h. h), (λ m h. elem-append m d.indexes (n ∷ []) h), λ m h. h)

unchanged-IsStep :
    (s : Ddl) (d : Database) (good : Bool)
    → (good ≡ true → is_done s d ≡ true)
    → IsStep s d (good, d)
unchanged-IsStep s d good h = (Keeps-refl d, h, refl)

pub execute-IsStep : (s : Ddl) (d : Database) → IsStep s d (execute s d)
unfolding execute ensure_column
execute-IsStep (creates_table t columns) d = (
  (create_table-Keeps t columns d.tables, (λ n h. h), λ n h. h),
  (λ h. create_table-there t columns d.tables),
  refl,
)
execute-IsStep (creates_index n t columns) d = elim (Bool-cases (elem n d.indexes)) [
  | inl e ↦ rw e (unchanged-IsStep (creates_index n t columns) d _ (λ h. e))
  | inr e ↦ elim (Bool-cases (has_columns t columns d.tables)) [
    | inl f ↦ rw (e, f) (with_index-Keeps n d, (λ h. elem-last n d.indexes), refl)
    | inr f ↦ rw (e, f) (unchanged-IsStep (creates_index n t columns) d _ (λ h. cc h))
  ]
]
execute-IsStep (creates_unique_index n t columns) d = elim (Bool-cases (elem n d.indexes)) [
  | inl e ↦ rw e (unchanged-IsStep (creates_unique_index n t columns) d _ (λ h. e))
  | inr e ↦ elim (Bool-cases (has_columns t columns d.tables && distinct d.active_jobs)) [
    | inl f ↦ rw (e, f) (with_index-Keeps n d, (λ h. elem-last n d.indexes), refl)
    | inr f ↦ rw (e, f) (unchanged-IsStep (creates_unique_index n t columns) d _ (λ h. cc h))
  ]
]
execute-IsStep (creates_search n t columns) d = elim (Bool-cases (table_exists n d.tables)) [
  | inl e ↦ rw e (unchanged-IsStep (creates_search n t columns) d _ (λ h. e))
  | inr e ↦
      let made = new_table-Keeps n ("search_text" ∷ []) d.tables e in
      rw e ((made.0, (λ m h. h), λ m h. h), (λ h. made.1), refl)
]
execute-IsStep (ensures_column t c) d = elim (Bool-cases (has_column t c d.tables)) [
  | inl e ↦ rw e (unchanged-IsStep (ensures_column t c) d _ (λ h. e))
  | inr e ↦ elim (Bool-cases (table_exists t d.tables)) [
    | inl f ↦
        rw (e, f)
          (
            (add_column-Keeps t c d.tables, (λ m h. h), λ m h. h),
            (λ h. add_column-there t c d.tables f),
            refl,
          )
    | inr f ↦ rw (e, f) (unchanged-IsStep (ensures_column t c) d _ (λ h. cc h))
  ]
]
execute-IsStep (creates_trigger n t) d = elim (Bool-cases (elem n d.triggers)) [
  | inl e ↦ rw e (unchanged-IsStep (creates_trigger n t) d _ (λ h. e))
  | inr e ↦ elim (Bool-cases (table_exists t d.tables)) [
    | inl f ↦
        rw (e, f)
          (
            (((λ k h. h), λ k c h. h), (λ m h. h), λ m h. elem-append m d.triggers (n ∷ []) h),
            (λ h. elem-last n d.triggers),
            refl,
          )
    | inr f ↦ rw (e, f) (unchanged-IsStep (creates_trigger n t) d _ (λ h. cc h))
  ]
]
