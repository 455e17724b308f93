-- ===== src/Samples/Searches.antt =====
-- The theorem on the search by LIKE, with a pattern that fits the whole text only.
use merge_mate.Base.{none, some, [], ◌∷◌, str_eq}
use merge_mate.Persistence.Search.{Engine, search_with_like}
use merge_mate.Persistence.Search.Found.{IsAnswer, search_with_like-IsAnswer}
use merge_mate.Samples.{chat, runs}

abbrev engine : Engine
engine = record {
  like = λ pattern text. str_eq pattern "%coder%";
  lower = λ t. t;
  sql_lower = λ t. t;
  terms = λ q. q ∷ [];
  fts_query = λ q. some q;
  match = λ q c n t. none;
}

search_with_like-IsAnswer_example :
    IsAnswer engine
      ("coder" ∷ [])
      (some chat)
      2
      runs
      (search_with_like engine "coder" 2 (some chat) runs)
search_with_like-IsAnswer_example = search_with_like-IsAnswer engine "coder" 2 (some chat) runs
