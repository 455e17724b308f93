-- ===== src/Persistence/Search/Found.antt =====
-- What the rows that `_search_with_like` gives have in common, and how many there are.
use mathlib.Core.List.{Memᴰ}
use merge_mate.Base.{
  ℕ, ◌≤◌, String, Bool, true, false, ◌&&◌, ◌||◌, Option, List, [], ◌∷◌, ◌≡◌, ◌≢◌, ◌+◌, refl, ap,
  ◌∙◌, Bool-cases, inl, inr, length, All, All-mp, All-self, All-select, All-take, length-take-le,
  select, select-holds, arith,
}
use Prim.Native.Nat.{min}
use merge_mate.Persistence.Recent.{length-take-min}
use merge_mate.Domain.Runs.{AgentRun, ChatId}
use merge_mate.Persistence.RunRepository.{Table}
use merge_mate.Persistence.Search.{
  Engine, Column, search_fields, wrapped, where_params, in_searched_chat, matches, where_holds,
  ranks, insert_ranked, ranked, found, like_terms, search_with_like,
}

All-both : (P Q : AgentRun → Type 0) (t : Table) → All P t → All Q t → All (λ r. P r × Q r) t
All-both P Q [] h k = tt
All-both P Q (r ∷ t) h k = ((h.0, k.0), All-both P Q t h.1 k.1)

module _ (e : Engine) where
  -- LIKE holds of a pattern and some field of the run, lowered by SQLite.
  unfoldable pub fits : AgentRun → String → List Column → Bool
  fits r pattern [] = false
  fits r pattern (f ∷ fs) = matches e r f pattern || fits r pattern fs

  -- Every term's pattern fits some field.
  unfoldable pub mentions : AgentRun → List String → Bool
  mentions r [] = true
  mentions r (t ∷ ts) = fits r (wrapped t) search_fields && mentions r ts

  -- The parameters that a clause is bound to are its term's.
  pub where_holds-mentions :
      (r : AgentRun) (ts : List String)
      → where_holds e r (length ts) (where_params (length search_fields) ts) ≡ mentions r ts
  unfolding where_holds where_params mentions fits
  where_holds-mentions r [] = refl
  where_holds-mentions r (t ∷ ts) = rw (where_holds-mentions r ts) refl

  All-insert_ranked :
      (P : AgentRun → Type 0) (points : AgentRun → ℕ) (r : AgentRun) (t : Table)
      → P r
      → All P t
      → All P (insert_ranked e points r t)
  unfolding insert_ranked
  All-insert_ranked P points r [] h hs = (h, tt)
  All-insert_ranked P points r (x ∷ t) h hs = elim (Bool-cases (ranks e points r x)) [
    | inl b ↦ rw b (h, hs)
    | inr b ↦ rw b (hs.0, All-insert_ranked P points r t h hs.1)
  ]

  All-ranked :
      (P : AgentRun → Type 0) (points : AgentRun → ℕ) (t : Table)
      → All P t
      → All P (ranked e points t)
  unfolding ranked
  All-ranked P points [] h = tt
  All-ranked P points (r ∷ t) h =
      All-insert_ranked P points r (ranked e points t) h.0 (All-ranked P points t h.1)

  found-mentions :
      (r : AgentRun) (ts : List String) (chat : Option ChatId)
      → found e ts chat r ≡ true
      → (mentions r ts ≡ true) × (in_searched_chat chat r ≡ true)
  unfolding found
  found-mentions r ts chat h =
      let same = where_holds-mentions r ts in (ground (arith, h, same), ground (arith, h))

  abbrev pub IsFound : List String → Option ChatId → Table → AgentRun → Type 0
  IsFound ts chat t r = Memᴰ r t × ((mentions r ts ≡ true) × (in_searched_chat chat r ≡ true))

  -- The rows that are looked for.
  abbrev pub is_hit : List String → Option ChatId → AgentRun → Bool
  is_hit ts chat r = mentions r ts && in_searched_chat chat r

  -- Only such rows, and for one term or more as many as there are, up to the limit.
  abbrev pub IsAnswer : List String → Option ChatId → ℕ → Table → Table → Type 0
  IsAnswer ts chat limit t out =
      All (IsFound ts chat t) out
      × (length out ≤ limit)
      × (ts ≢ [] → length out ≡ min limit (length (select (is_hit ts chat) t)))

  insert_ranked-length :
      (points : AgentRun → ℕ) (r : AgentRun) (t : Table)
      → length (insert_ranked e points r t) ≡ length t + 1
  unfolding insert_ranked
  insert_ranked-length points r [] = refl
  insert_ranked-length points r (x ∷ t) = ground (arith, insert_ranked-length points r t)

  ranked-length : (points : AgentRun → ℕ) (t : Table) → length (ranked e points t) ≡ length t
  unfolding ranked
  ranked-length points [] = refl
  ranked-length points (r ∷ t) =
      omega (arith, insert_ranked-length points r (ranked e points t), ranked-length points t)

  found-is_hit :
      (ts : List String) (chat : Option ChatId) (t : Table)
      → select (found e ts chat) t ≡ select (is_hit ts chat) t
  unfolding select found
  found-is_hit ts chat [] = refl
  found-is_hit ts chat (r ∷ t) = rw (where_holds-mentions r ts, found-is_hit ts chat t) refl

  like_terms-IsAnswer :
      (ts : List String) (query : String) (limit : ℕ) (chat : Option ChatId) (t : Table)
      → IsAnswer ts chat limit t (like_terms e ts query limit chat t)
  like_terms-IsAnswer [] query limit chat t = (tt, omega arith, λ h. absurd (h refl))
  like_terms-IsAnswer (w ∷ ws) query limit chat t =
      let rows =
        All-both _ _ (select (found e (w ∷ ws) chat) t)
          (All-select (λ x. Memᴰ x t) (found e (w ∷ ws) chat) t (All-self t))
          (select-holds (found e (w ∷ ws) chat) t) in
      let good =
        All-mp _ (IsFound (w ∷ ws) chat t) (λ r h. (h.0, found-mentions r (w ∷ ws) chat h.1))
          (select (found e (w ∷ ws) chat) t) rows in
      (
        All-take (IsFound (w ∷ ws) chat t) limit _
            (All-ranked _ _ (select (found e (w ∷ ws) chat) t) good),
        length-take-le limit _,
        λ h.
            length-take-min (λ (r : AgentRun). 0) limit _
            ∙ (ap (min limit) (ranked-length _ (select (found e (w ∷ ws) chat) t))
                ∙ ap (λ (rows : Table). min limit (length rows)) (found-is_hit (w ∷ ws) chat t)),
      )

  -- Every run that _search_with_like gives is a row of the table, of the asked chat if one is
  -- asked, and for every word of the query LIKE holds of the pattern %word% and some field,
  -- lowered by SQLite; there are not more than the limit, and for one word or more as many as the
  -- table has such rows, up to the limit.
  pub search_with_like-IsAnswer :
      (query : String) (limit : ℕ) (chat : Option ChatId) (t : Table)
      → IsAnswer (e.terms query) chat limit t (search_with_like e query limit chat t)
  unfolding search_with_like
  search_with_like-IsAnswer query limit chat t =
      like_terms-IsAnswer (e.terms query) query limit chat t
