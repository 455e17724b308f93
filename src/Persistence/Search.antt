-- ===== src/Persistence/Search.antt =====
-- src/mergemate/infrastructure/persistence/sqlite_repositories.py, `search` and `_search_with_like`: the
-- parameters of the statement are bound to its question marks by position. `LIKE`, the full-text
-- search, and what Python splits and lowers a text to are parameters.
pub mod Found
use merge_mate.Base.{
  ℕ, zero, suc, ◌+◌, String, Bool, true, false, ◌&&◌, ◌||◌, not, Option, none, some, List, [], ◌∷◌,
  ◌++◌, map, if◌then◌else◌, leb, ltb, ◌==◌, length, take, drop, select, text_append,
}
use merge_mate.Domain.Status.{value}
use merge_mate.Domain.Runs.{AgentRun, ChatId, chat_eq}
use merge_mate.Persistence.RunRepository.{Table}

-- `like pattern text` is SQLite's LIKE, for which `%` and `_` of a word are wildcards too, as the code does
-- not escape them; `lower` is `str.lower`, and `sql_lower` the function of SQLite, which takes ASCII only;
-- `terms` is `[t.strip().lower() for t in query.split() if t.strip()]`; `fts_query` is
-- `build_fts_query`, and `match` the full-text search with its order and limit, none where it raises
-- an OperationalError.
pub record Engine : Type 0 where
  pub like : String → String → Bool
  pub lower : String → String
  pub sql_lower : String → String
  pub terms : String → List String
  pub fts_query : String → Option String
  pub match : String → Option ChatId → ℕ → Table → Option Table

abbrev pub coalesced : Option String → String
coalesced none = ""
coalesced (some t) = t

abbrev pub Column : Type 0
Column = AgentRun → String

-- `search_fields`
abbrev pub search_fields : List Column
search_fields =
    (λ r. r.run_id)
    ∷ (λ r. r.agent_name)
    ∷ (λ r. r.workflow)
    ∷ (λ r. value r.status)
    ∷ (λ r. r.current_stage)
    ∷ (λ r. r.prompt)
    ∷ (λ r. coalesced r.plan_text)
    ∷ (λ r. coalesced r.design_text)
    ∷ (λ r. coalesced r.test_text)
    ∷ (λ r. coalesced r.review_text)
    ∷ (λ r. coalesced r.result_text)
    ∷ (λ r. coalesced r.error_text)
    ∷ []

unfoldable pub repeated_text : ℕ → String → List String
repeated_text zero t = []
repeated_text (suc n) t = t ∷ repeated_text n t

unfoldable pub repeated_column : ℕ → Column → List Column
repeated_column zero f = []
repeated_column (suc n) f = f ∷ repeated_column n f

abbrev pub wrapped : String → String
wrapped t = text_append "%" (text_append t "%")

-- The columns of the question marks of the score: for each field one for each term, and one for the
-- whole phrase.
unfoldable pub score_columns : ℕ → List Column → List Column
unfolding repeated_column
score_columns terms [] = []
score_columns terms (f ∷ fs) = repeated_column (terms + 1) f ++ score_columns terms fs

-- `score_params`: first the terms of every field, then the phrases.
unfoldable pub term_params : List String → List Column → List String
term_params terms [] = []
term_params terms (f ∷ fs) = map wrapped terms ++ term_params terms fs

unfoldable pub score_params : List String → String → List String
unfolding term_params repeated_text
score_params terms phrase =
    term_params terms search_fields ++ repeated_text (length search_fields) (wrapped phrase)

-- `where_params`, without the chat.
unfoldable pub where_params : ℕ → List String → List String
unfolding repeated_text
where_params fields [] = []
where_params fields (t ∷ ts) = repeated_text fields (wrapped t) ++ where_params fields ts

abbrev pub in_searched_chat : Option ChatId → AgentRun → Bool
in_searched_chat none r = true
in_searched_chat (some chat) r = chat_eq r.chat_id chat

module _ (e : Engine) where
  -- `lower(column) LIKE ?`
  abbrev pub matches : AgentRun → Column → String → Bool
  matches r f param = e.like param (e.sql_lower (f r))

  unfoldable pub score : AgentRun → List Column → List String → ℕ
  score r [] params = 0
  score r (f ∷ fs) [] = 0
  score r (f ∷ fs) (p ∷ ps) = let rest = score r fs ps in if matches r f p then suc rest else rest

  -- One clause `(… LIKE ? OR … LIKE ?)`, on as many parameters as it has fields.
  unfoldable pub clause : AgentRun → List Column → List String → Bool
  clause r [] params = false
  clause r (f ∷ fs) [] = false
  clause r (f ∷ fs) (p ∷ ps) = matches r f p || clause r fs ps

  -- The clauses of the terms, each of which takes its parameters from the front of the list.
  unfoldable pub where_holds : AgentRun → ℕ → List String → Bool
  unfolding clause
  where_holds r zero params = true
  where_holds r (suc terms) params =
      clause r search_fields params && where_holds r terms (drop (length search_fields) params)

  -- `ORDER BY _score DESC, updated_at DESC`
  abbrev pub ranks : (AgentRun → ℕ) → AgentRun → AgentRun → Bool
  ranks points a b =
      ltb (points b) (points a) || (points a == points b && leb b.updated_at a.updated_at)

  unfoldable pub insert_ranked : (AgentRun → ℕ) → AgentRun → Table → Table
  insert_ranked points r [] = r ∷ []
  insert_ranked points r (x ∷ t) =
      if ranks points r x then r ∷ x ∷ t else x ∷ insert_ranked points r t

  unfoldable pub ranked : (AgentRun → ℕ) → Table → Table
  unfolding insert_ranked
  ranked points [] = []
  ranked points (r ∷ t) = insert_ranked points r (ranked points t)

  unfoldable pub found : List String → Option ChatId → AgentRun → Bool
  unfolding where_holds where_params
  found terms chat r =
      where_holds r (length terms) (where_params (length search_fields) terms)
      && in_searched_chat chat r

  abbrev pub like_terms : List String → String → ℕ → Option ChatId → Table → Table
  like_terms [] query limit chat t = []
  like_terms (w ∷ ws) query limit chat t =
      let points : AgentRun → ℕ = λ r.
        score r (score_columns (length (w ∷ ws)) search_fields)
          (score_params (w ∷ ws) (e.lower query)) in
      take limit (ranked points (select (found (w ∷ ws) chat) t))

  -- `_search_with_like`
  unfoldable pub search_with_like : String → ℕ → Option ChatId → Table → Table
  unfolding score score_columns score_params ranked found
  search_with_like query limit chat t = like_terms (e.terms query) query limit chat t

  -- `search`
  unfoldable pub search : String → ℕ → Option ChatId → Table → Table
  unfolding search_with_like
  search query limit chat t = elim (e.fts_query query) [
    | none ↦ []
    | some q ↦ elim (e.match q chat limit t) [
      | some rows ↦ rows
      | none ↦ search_with_like query limit chat t
    ]
  ]
