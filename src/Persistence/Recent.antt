-- ===== src/Persistence/Recent.antt =====
-- `SELECT … WHERE … ORDER BY created_at DESC LIMIT ?` on a table, as the repositories of
-- src/mergemate/infrastructure/persistence/sqlite_repositories.py read it. SQL leaves the order of the rows
-- of one time open; here it is their order in the table.
use merge_mate.Base.{
  ℕ, zero, suc, ◌+◌, ◌≤◌, Bool, true, false, List, [], ◌∷◌, ◌++◌, ◌≡◌, refl, ap, ◌∙◌, if◌then◌else◌,
  leb, leb→le, Bool-cases, inl, inr, length, take, drop, take-append-drop, All-take, length-take-le,
  select-holds, select-append, All-select, ◌<◌, select, count_where, All, All-mp, arith,
}
use Prim.Native.Nat.{min}

module _ {A : Type 0} (created_at : A → ℕ) where
  unfoldable pub insert_recent : A → List A → List A
  insert_recent r [] = r ∷ []
  insert_recent r (x ∷ t) =
      if leb (created_at x) (created_at r) then r ∷ x ∷ t else x ∷ insert_recent r t

  unfoldable pub recent_first : List A → List A
  recent_first [] = []
  recent_first (r ∷ t) = insert_recent r (recent_first t)

  unfoldable pub recent : (A → Bool) → ℕ → List A → List A
  unfolding recent_first
  recent p limit rows = take limit (recent_first (select p rows))

  -- No row is older than one behind it.
  abbrev pub IsRecentFirst : List A → Type 0
  IsRecentFirst [] = Unit
  IsRecentFirst (x ∷ xs) = All (λ y. created_at y ≤ created_at x) xs × IsRecentFirst xs

  -- `out` holds as many of the rows that pass the test as the limit lets it, and `rest` the others,
  -- none of them newer than one of `out`.
  abbrev pub IsNewest : (A → Bool) → ℕ → List A → List A → Type 0
  IsNewest p limit rows out =
      (rest : List A) × IsRecentFirst (out ++ rest)
      × ((q : A → Bool) → count_where q (out ++ rest) ≡ count_where q (select p rows))
      × (length out ≡ min limit (length (select p rows)))

  insert_recent-count_where :
      (q : A → Bool) (r : A) (t : List A)
      → count_where q (insert_recent r t) ≡ count_where q (r ∷ t)
  unfolding insert_recent count_where
  insert_recent-count_where q r [] = refl
  insert_recent-count_where q r (x ∷ t) = ground (arith, insert_recent-count_where q r t)

  All-insert_recent :
      (P : A → Type 0) (r : A) (t : List A) → P r → All P t → All P (insert_recent r t)
  unfolding insert_recent
  All-insert_recent P r [] h hs = (h, tt)
  All-insert_recent P r (x ∷ t) h hs = elim (Bool-cases (leb (created_at x) (created_at r))) [
    | inl e ↦ rw e (h, hs)
    | inr e ↦ rw e (hs.0, All-insert_recent P r t h hs.1)
  ]

  insert_recent-IsRecentFirst :
      (r : A) (t : List A) → IsRecentFirst t → IsRecentFirst (insert_recent r t)
  unfolding insert_recent
  insert_recent-IsRecentFirst r [] h = (tt, tt)
  insert_recent-IsRecentFirst r (x ∷ t) h = elim (Bool-cases (leb (created_at x) (created_at r))) [
    | inl e ↦
        let older : created_at x ≤ created_at r = leb→le _ _ e in
        rw e ((older, All-mp _ _ (λ y below. omega (arith, older, below)) t h.0), h)
    | inr e ↦ rw e (
      All-insert_recent (λ y. created_at y ≤ created_at x) r t (ground arith) h.0,
      insert_recent-IsRecentFirst r t h.1,
    )
  ]

  recent_first-IsRecentFirst : (t : List A) → IsRecentFirst (recent_first t)
  unfolding recent_first
  recent_first-IsRecentFirst [] = tt
  recent_first-IsRecentFirst (r ∷ t) =
      insert_recent-IsRecentFirst r (recent_first t) (recent_first-IsRecentFirst t)

  recent_first-count_where :
      (q : A → Bool) (t : List A) → count_where q (recent_first t) ≡ count_where q t
  unfolding recent_first count_where
  recent_first-count_where q [] = refl
  recent_first-count_where q (r ∷ t) =
      ground (arith, insert_recent-count_where q r (recent_first t), recent_first-count_where q t)

  insert_recent-length : (r : A) (t : List A) → length (insert_recent r t) ≡ length t + 1
  unfolding insert_recent
  insert_recent-length r [] = refl
  insert_recent-length r (x ∷ t) = ground (arith, insert_recent-length r t)

  recent_first-length : (t : List A) → length (recent_first t) ≡ length t
  unfolding recent_first
  recent_first-length [] = refl
  recent_first-length (r ∷ t) =
      omega (arith, insert_recent-length r (recent_first t), recent_first-length t)

  pub length-take-min : (n : ℕ) (xs : List A) → length (take n xs) ≡ min n (length xs)
  length-take-min zero xs = omega arith
  length-take-min (suc n) [] = omega arith
  length-take-min (suc n) (x ∷ xs) = omega (arith, length-take-min n xs)

  pub recent-IsNewest :
      (p : A → Bool) (limit : ℕ) (rows : List A) → IsNewest p limit rows (recent p limit rows)
  unfolding recent
  recent-IsNewest p limit rows =
      let sorted = recent_first (select p rows) in
      let whole = take-append-drop limit sorted in
      (
        drop limit sorted,
        rw whole (recent_first-IsRecentFirst (select p rows)),
        λ q. rw whole (recent_first-count_where q (select p rows)),
        length-take-min limit sorted ∙ ap (min limit) (recent_first-length (select p rows)),
      )

  abbrev pub IsEarlier : A → List A → Type 0
  IsEarlier m rows = All (λ x. created_at x < created_at m) rows

  recent_first-append :
      (rows : List A) (m : A)
      → IsEarlier m rows
      → recent_first (rows ++ m ∷ []) ≡ m ∷ recent_first rows
  unfolding recent_first insert_recent
  recent_first-append [] m h = refl
  recent_first-append (x ∷ rows) m h =
      let earlier : leb (created_at m) (created_at x) ≡ false = ground (arith, h.0) in
      rw (recent_first-append rows m h.1) (rw earlier refl)

  select-one : (p : A → Bool) (m : A) → p m ≡ true → select p (m ∷ []) ≡ m ∷ []
  unfolding select
  select-one p m e = rw e refl

  -- A row that is later than those before it comes first.
  pub recent-append :
      (p : A → Bool) (limit : ℕ) (rows : List A) (m : A)
      → IsEarlier m rows
      → p m ≡ true
      → recent p (suc limit) (rows ++ m ∷ []) ≡ m ∷ recent p limit rows
  unfolding recent
  recent-append p limit rows m h passes =
      let one : select p (m ∷ []) ≡ m ∷ [] = select-one p m passes in
      let earlier = All-select (λ x. created_at x < created_at m) p rows h in
      rw (select-append p rows (m ∷ []), one, recent_first-append (select p rows) m earlier) refl

  recent_first-All : (P : A → Type 0) (t : List A) → All P t → All P (recent_first t)
  unfolding recent_first
  recent_first-All P [] h = tt
  recent_first-All P (r ∷ t) h =
      All-insert_recent P r (recent_first t) h.0 (recent_first-All P t h.1)

  -- Every row of the answer passes the test, and there are not more than the limit.
  pub recent-holds :
      (p : A → Bool) (limit : ℕ) (rows : List A) → All (λ x. p x ≡ true) (recent p limit rows)
  unfolding recent
  recent-holds p limit rows =
      All-take _ limit _ (recent_first-All _ (select p rows) (select-holds p rows))

  pub recent-length :
      (p : A → Bool) (limit : ℕ) (rows : List A) → length (recent p limit rows) ≤ limit
  unfolding recent
  recent-length p limit rows = length-take-le limit _
