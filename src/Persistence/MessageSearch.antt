-- ===== src/Persistence/MessageSearch.antt =====
-- src/mergemate/infrastructure/persistence/sqlite_repositories.py, `search_messages` and
-- `_search_messages_with_like`. The parameters of the statement stand in the order of its question
-- marks, so each is the term of its own clause.
use mathlib.Core.List.{Memᴰ}
use merge_mate.Base.{
  ℕ, ◌+◌, ◌≤◌, String, Bool, true, ◌&&◌, ◌||◌, Option, none, some, List, [], ◌∷◌, ◌≡◌,
  if◌then◌else◌, leb, ltb, ◌==◌, length, take, select, count_where, All, All-mp, All-self,
  All-select, All-take, All-pair, length-take-le, select-holds, Bool-cases, inl, inr, arith,
}
use merge_mate.Domain.Runs.{ChatId, chat_eq}
use merge_mate.Persistence.Search.{wrapped}
use merge_mate.Persistence.Conversations.{Message}

-- As for the runs: `like pattern text` is SQLite's LIKE, `lower` is `str.lower` and `sql_lower` the function of
-- SQLite, `terms` the words of a query, and `match` the full-text search with its order and limit,
-- none where it raises an OperationalError.
pub record MessageEngine : Type 0 where
  pub like : String → String → Bool
  pub lower : String → String
  pub sql_lower : String → String
  pub terms : String → List String
  pub fts_query : String → Option String
  pub match : String → Option ChatId → ℕ → List Message → Option (List Message)

abbrev pub in_asked_chat : Option ChatId → Message → Bool
in_asked_chat none m = true
in_asked_chat (some chat) m = chat_eq m.chat_id chat

module _ (e : MessageEngine) where
  -- `lower(coalesce(content, '')) LIKE ?`
  abbrev pub has_text : Message → String → Bool
  has_text m text = e.like (wrapped text) (e.sql_lower m.content)

  -- The clauses of the terms, joined by AND.
  unfoldable pub has_texts : Message → List String → Bool
  has_texts m [] = true
  has_texts m (t ∷ ts) = has_text m t && has_texts m ts

  -- The score: one for each term and one for the phrase.
  unfoldable pub relevance_score : List String → String → Message → ℕ
  relevance_score terms query m =
      count_where (has_text m) terms + (if has_text m (e.lower query) then 1 else 0)

  -- `ORDER BY _score DESC, created_at DESC`
  abbrev pub outranks : (Message → ℕ) → Message → Message → Bool
  outranks points a b =
      ltb (points b) (points a) || (points a == points b && leb b.created_at a.created_at)

  unfoldable pub insert_scored : (Message → ℕ) → Message → List Message → List Message
  insert_scored points m [] = m ∷ []
  insert_scored points m (x ∷ t) =
      if outranks points m x then m ∷ x ∷ t else x ∷ insert_scored points m t

  unfoldable pub scored : (Message → ℕ) → List Message → List Message
  unfolding insert_scored
  scored points [] = []
  scored points (m ∷ t) = insert_scored points m (scored points t)

  abbrev pub selected : List String → Option ChatId → Message → Bool
  selected terms chat m = has_texts m terms && in_asked_chat chat m

  abbrev pub with_terms : List String → String → ℕ → Option ChatId → List Message → List Message
  with_terms [] query limit chat t = []
  with_terms (w ∷ ws) query limit chat t =
      take limit (scored (relevance_score (w ∷ ws) query) (select (selected (w ∷ ws) chat) t))

  -- `_search_messages_with_like`
  unfoldable pub search_messages_with_like :
      String → ℕ → Option ChatId → List Message → List Message
  unfolding scored relevance_score has_texts
  search_messages_with_like query limit chat t = with_terms (e.terms query) query limit chat t

  -- `search_messages`
  unfoldable pub search_messages : String → ℕ → Option ChatId → List Message → List Message
  unfolding search_messages_with_like
  search_messages query limit chat t = elim (e.fts_query query) [
    | none ↦ []
    | some q ↦ elim (e.match q chat limit t) [
      | some rows ↦ rows
      | none ↦ search_messages_with_like query limit chat t
    ]
  ]

  All-insert_scored :
      (P : Message → Type 0) (points : Message → ℕ) (m : Message) (t : List Message)
      → P m
      → All P t
      → All P (insert_scored points m t)
  unfolding insert_scored
  All-insert_scored P points m [] h hs = (h, tt)
  All-insert_scored P points m (x ∷ t) h hs = elim (Bool-cases (outranks points m x)) [
    | inl b ↦ rw b (h, hs)
    | inr b ↦ rw b (hs.0, All-insert_scored P points m t h hs.1)
  ]

  All-scored :
      (P : Message → Type 0) (points : Message → ℕ) (t : List Message)
      → All P t
      → All P (scored points t)
  unfolding scored
  All-scored P points [] h = tt
  All-scored P points (m ∷ t) h =
      All-insert_scored P points m (scored points t) h.0 (All-scored P points t h.1)

  -- A message of the table, of the asked chat if one is asked, that has every term.
  abbrev pub IsHit : List String → Option ChatId → List Message → Message → Type 0
  IsHit ts chat t m = Memᴰ m t × (has_texts m ts ≡ true) × (in_asked_chat chat m ≡ true)

  with_terms-IsHit :
      (ts : List String) (query : String) (limit : ℕ) (chat : Option ChatId) (t : List Message)
      → All (IsHit ts chat t) (with_terms ts query limit chat t)
        × (length (with_terms ts query limit chat t) ≤ limit)
  with_terms-IsHit [] query limit chat t = (tt, omega arith)
  with_terms-IsHit (w ∷ ws) query limit chat t =
      let rows = select (selected (w ∷ ws) chat) t in
      let good =
        All-mp _ (IsHit (w ∷ ws) chat t) (λ m h. (h.0, ground (arith, h.1), ground (arith, h.1)))
          rows
          (All-pair (λ m. Memᴰ m t) _ rows
            (All-select (λ x. Memᴰ x t) (selected (w ∷ ws) chat) t (All-self t))
            (select-holds (selected (w ∷ ws) chat) t)) in
      (All-take (IsHit (w ∷ ws) chat t) limit _ (All-scored _ _ rows good), length-take-le limit _)

  pub search_messages_with_like-IsHit :
      (query : String) (limit : ℕ) (chat : Option ChatId) (t : List Message)
      → All (IsHit (e.terms query) chat t) (search_messages_with_like query limit chat t)
        × (length (search_messages_with_like query limit chat t) ≤ limit)
  unfolding search_messages_with_like
  search_messages_with_like-IsHit query limit chat t =
      with_terms-IsHit (e.terms query) query limit chat t
