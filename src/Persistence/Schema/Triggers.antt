-- ===== src/Persistence/Schema/Triggers.antt =====
-- src/mergemate/infrastructure/persistence/sqlite_schema.py: the full-text tables, which triggers keep beside
-- their base tables. A row is known by its rowid; `search_text` is the expression that
-- `agent_runs_search_text_sql` or `conversation_messages_search_text_sql` gives.
use mathlib.Core.List.{append-nil}
use merge_mate.Base.{
  ℕ, String, Bool, not, Option, none, some, List, [], ◌∷◌, ◌++◌, ◌≡◌, refl, ap, map, if◌then◌else◌,
  ◌==◌, select, select-append, update_where, Bool-cases, inl, inr, arith,
}

-- A base table and its index, none before the index is created.
pub record Indexed (A : Type 0) : Type 0 where
  pub rows : List (ℕ × A)
  pub index : Option (List (ℕ × String))

module _ {A : Type 0} where
  abbrev pub has_rowid : ℕ → ℕ × A → Bool
  has_rowid id r = r.0 == id

  select-deleted :
      (id k : ℕ) (rows : List (ℕ × A))
      → select (has_rowid k) (select (λ (r : ℕ × A). not (r.0 == id)) rows)
        ≡ (if id == k then [] else select (has_rowid k) rows)
  unfolding select
  select-deleted id k [] = ground arith
  select-deleted id k (r ∷ rows) = ground (arith, select-deleted id k rows)

  select-single :
      (id k : ℕ) (a : A)
      → select (has_rowid k) ((id, a) ∷ []) ≡ (if id == k then (id, a) ∷ [] else [])
  unfolding select
  select-single id k a = refl

  select-updated :
      (id k : ℕ) (a : A) (rows : List (ℕ × A))
      → select (has_rowid k) (update_where (has_rowid id) (λ r. (id, a)) rows) ≡ (
          if id == k
          then map (λ (r : ℕ × A). (id, a)) (select (has_rowid k) rows)
          else select (has_rowid k) rows)
  unfolding select update_where
  select-updated id k a [] = ground arith
  select-updated id k a (r ∷ rows) = ground (arith, select-updated id k a rows)

module _ {A : Type 0} (search_text : A → String) where
  abbrev pub text_row : ℕ × A → ℕ × String
  text_row r = (r.0, search_text r.1)

  -- `INSERT INTO …_fts`, `DELETE FROM …_fts WHERE rowid = ?`
  abbrev pub index_add : ℕ × String → Option (List (ℕ × String)) → Option (List (ℕ × String))
  index_add r none = none
  index_add r (some index) = some (index ++ r ∷ [])

  abbrev pub index_delete : ℕ → Option (List (ℕ × String)) → Option (List (ℕ × String))
  index_delete id none = none
  index_delete id (some index) = some (select (λ (r : ℕ × String). not (r.0 == id)) index)

  -- The creation of the index, with the texts of all rows; one that is there is left.
  abbrev pub rebuilt : List (ℕ × A) → Option (List (ℕ × String)) → Option (List (ℕ × String))
  rebuilt rows none = some (map text_row rows)
  rebuilt rows (some index) = some index

  unfoldable pub ensure_index : Indexed A → Indexed A
  ensure_index t = record t { index = rebuilt t.rows t.index }

  -- A statement on the base table, with its trigger.
  unfoldable pub insert_row : ℕ → A → Indexed A → Indexed A
  insert_row id a t = record {
    rows = t.rows ++ (id, a) ∷ [];
    index = index_add (id, search_text a) t.index;
  }

  unfoldable pub delete_row : ℕ → Indexed A → Indexed A
  delete_row id t = record {
    rows = select (λ (r : ℕ × A). not (r.0 == id)) t.rows;
    index = index_delete id t.index;
  }

  -- An update of the row with this id to a row.
  unfoldable pub update_row : ℕ → A → Indexed A → Indexed A
  update_row id a t = record {
    rows = update_where (has_rowid id) (λ r. (id, a)) t.rows;
    index = index_add (id, search_text a) (index_delete id t.index);
  }

  -- The index has for every rowid the texts of the rows with this id.
  abbrev pub Mirrors : List (ℕ × A) → Option (List (ℕ × String)) → Type 0
  Mirrors rows none = ⊥
  Mirrors rows (some index) =
      (id : ℕ) → select (has_rowid id) index ≡ map text_row (select (has_rowid id) rows)

  abbrev pub IsMirrored : Indexed A → Type 0
  IsMirrored t = Mirrors t.rows t.index

  select-map :
      (id : ℕ) (rows : List (ℕ × A))
      → select (has_rowid id) (map text_row rows) ≡ map text_row (select (has_rowid id) rows)
  unfolding select
  select-map id [] = refl
  select-map id (r ∷ rows) = elim (Bool-cases (r.0 == id)) [
    | inl e ↦ rw (e, select-map id rows) refl
    | inr e ↦ rw (e, select-map id rows) refl
  ]

  map-append : (xs ys : List (ℕ × A)) → map text_row (xs ++ ys) ≡ map text_row xs ++ map text_row ys
  map-append [] ys = refl
  map-append (x ∷ xs) ys = ap (λ l. text_row x ∷ l) (map-append xs ys)

  pub ensure_index-IsMirrored : (t : Indexed A) → t.index ≡ none → IsMirrored (ensure_index t)
  unfolding ensure_index
  ensure_index-IsMirrored t h = rw h (λ id. select-map id t.rows)

  insert-Mirrors :
      (id : ℕ) (a : A) (rows : List (ℕ × A)) (index : Option (List (ℕ × String)))
      → Mirrors rows index
      → Mirrors (rows ++ (id, a) ∷ []) (index_add (id, search_text a) index)
  unfolding select
  insert-Mirrors id a rows none h = h
  insert-Mirrors id a rows (some index) h = λ k.
      rw
        (
          select-append (has_rowid k) index ((id, search_text a) ∷ []),
          select-append (has_rowid k) rows ((id, a) ∷ []),
          map-append (select (has_rowid k) rows) (select (has_rowid k) ((id, a) ∷ [])),
          h k,
        )
        (ap (λ l. map text_row (select (has_rowid k) rows) ++ l) (select-map k ((id, a) ∷ [])))

  delete-Mirrors :
      (id : ℕ) (rows : List (ℕ × A)) (index : Option (List (ℕ × String)))
      → Mirrors rows index
      → Mirrors (select (λ (r : ℕ × A). not (r.0 == id)) rows) (index_delete id index)
  delete-Mirrors id rows none h = h
  delete-Mirrors id rows (some index) h = λ k.
      rw (select-deleted id k index, select-deleted id k rows)
        (elim (Bool-cases (id == k)) [ inl e ↦ rw e refl | inr e ↦ rw e (h k) ])

  update-Mirrors :
      (id : ℕ) (old new : A) (rows : List (ℕ × A)) (index : Option (List (ℕ × String)))
      → select (has_rowid id) rows ≡ (id, old) ∷ []
      → Mirrors rows index
      → Mirrors
          (update_where (has_rowid id) (λ r. (id, new)) rows)
          (index_add (id, search_text new) (index_delete id index))
  update-Mirrors id old new rows none one h = h
  update-Mirrors id old new rows (some index) one h = λ k.
      rw
        (
          select-append (has_rowid k) (select (λ (r : ℕ × String). not (r.0 == id)) index)
              ((id, search_text new) ∷ []),
          select-deleted id k index,
          select-single id k (search_text new),
          select-updated id k new rows,
        )
        (elim (Bool-cases (id == k)) [
          | inl e ↦ let same : k ≡ id = ground (arith, e) in rw (e, same, one) refl
          | inr e ↦ rw (e, h k) (append-nil _)
        ])

  -- The statements on a base table; an update is of one row, which has the id alone.
  pub data Statement : Indexed A → Indexed A → Type 0 where
    inserts : (t : Indexed A) (id : ℕ) (a : A) → Statement t (insert_row id a t)
    deletes : (t : Indexed A) (id : ℕ) → Statement t (delete_row id t)
    updates :
        (t : Indexed A) (id : ℕ) (old new : A)
        → select (has_rowid id) t.rows ≡ (id, old) ∷ []
        → Statement t (update_row id new t)

  -- Every statement keeps the index in step with its table.
  pub Statement-IsMirrored : {t u : Indexed A} → Statement t u → IsMirrored t → IsMirrored u
  unfolding insert_row delete_row update_row
  Statement-IsMirrored (inserts t id a) h = insert-Mirrors id a t.rows t.index h
  Statement-IsMirrored (deletes t id) h = delete-Mirrors id t.rows t.index h
  Statement-IsMirrored (updates t id old new one) h = update-Mirrors id old new t.rows t.index one h

  pub data IsReached (start : Indexed A) : Indexed A → Type 0 where
    indexed : IsReached start (ensure_index start)
    then_statement : {t u : Indexed A} → IsReached start t → Statement t u → IsReached start u

  -- From the creation of a full-text index on, every insert, delete and update of one row of the
  -- base table leaves the index with exactly the texts of the rows, for every rowid.
  pub IsReached-IsMirrored :
      (start t : Indexed A) → start.index ≡ none → IsReached start t → IsMirrored t
  IsReached-IsMirrored start t fresh indexed = ensure_index-IsMirrored start fresh
  IsReached-IsMirrored start t fresh (then_statement r s) =
      Statement-IsMirrored s (IsReached-IsMirrored start _ fresh r)
