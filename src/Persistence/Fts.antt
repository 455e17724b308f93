-- ===== src/Persistence/Fts.antt =====
-- src/mergemate/infrastructure/persistence/sqlite_common.py, `fts_quote` and `build_fts_query`: how a
-- user's words get into a query of SQLite's full-text search. A text is the list of its code points;
-- `shlex.split` with its fallback, and `str.strip`, are parameters.
use mathlib.Core.List.{append_assoc}
use merge_mate.Base.{
  ℕ, zero, suc, ◌&&◌, length, Bool, true, false, not, Option, none, some, List, [], ◌∷◌, ◌++◌, ◌≡◌,
  refl, ap, ◌==◌, if◌then◌else◌, Bool-cases, inl, inr, arith, select, map,
}

abbrev pub Chars : Type 0
Chars = List ℕ

-- `token.replace('"', '""')`
unfoldable pub doubled : Chars → Chars
doubled [] = []
doubled (c ∷ cs) = if c == 34 then 34 ∷ 34 ∷ doubled cs else c ∷ doubled cs

unfoldable pub fts_quote : Chars → Chars
unfolding doubled
fts_quote token = 34 ∷ (doubled token ++ 34 ∷ [])

-- `" AND ".join`
unfoldable pub join_and : List Chars → Chars
join_and [] = []
join_and (t ∷ []) = t
join_and (t ∷ u ∷ rest) = t ++ 32 ∷ 65 ∷ 78 ∷ 68 ∷ 32 ∷ join_and (u ∷ rest)

abbrev pub is_nonempty : Chars → Bool
is_nonempty [] = false
is_nonempty (c ∷ cs) = true

abbrev pub query_of : List Chars → Option Chars
query_of [] = none
query_of (t ∷ ts) = some (join_and (map fts_quote (t ∷ ts)))

-- `build_fts_query`, for the tokens that `shlex.split` gives.
unfoldable pub build_fts_query : (Chars → List Chars) → (Chars → Chars) → Chars → Option Chars
unfolding join_and fts_quote
build_fts_query tokens strip query = query_of (select is_nonempty (map strip (tokens query)))

-- How the engine reads a string behind its opening quote: two quotes stand for one, and another one
-- ends it. It gives the string and what follows it, and none if there is no end. The Boolean says
-- that a quote was read, which ends the string unless another one follows.
abbrev pub more : ℕ → Option (Chars × Chars) → Option (Chars × Chars)
more c none = none
more c (some (cs, rest)) = some (c ∷ cs, rest)

unfoldable pub read_string : Bool → Chars → Option (Chars × Chars)
read_string true [] = some ([], [])
read_string false [] = none
read_string true (c ∷ cs) =
    let behind = read_string false cs in if c == 34 then more 34 behind else some ([], c ∷ cs)
read_string false (c ∷ cs) =
    let ended = read_string true cs in
    let later = read_string false cs in if c == 34 then ended else more c later

-- What may follow a string: not a quote.
abbrev IsEnd : Chars → Type 0
IsEnd [] = Unit
IsEnd (c ∷ cs) = (c == 34) ≡ false

read_string-end : (rest : Chars) → IsEnd rest → read_string true rest ≡ some ([], rest)
unfolding read_string
read_string-end [] h = refl
read_string-end (c ∷ cs) h = rw h refl

read_string-doubled :
    (token rest : Chars)
    → IsEnd rest
    → read_string false (doubled token ++ 34 ∷ rest) ≡ some (token, rest)
unfolding read_string doubled
read_string-doubled [] rest h = read_string-end rest h
read_string-doubled (c ∷ cs) rest h = elim (Bool-cases (c == 34)) [
  | inl e ↦
      let same : 34 ≡ c = ground arith in
      rw (e, read_string-doubled cs rest h) (ap (λ (x : ℕ). some (x ∷ cs, rest)) same)
  | inr e ↦ rw e (rw (e, read_string-doubled cs rest h) refl)
]

-- What stands behind ` AND `, if that is what comes first.
unfoldable pub behind_and : Chars → Option Chars
behind_and (a ∷ b ∷ c ∷ d ∷ e ∷ rest) =
    if a == 32 && (b == 65 && (c == 78 && (d == 68 && e == 32))) then some rest else none
behind_and _ = none

abbrev pub add_term : Chars → Option (List Chars) → Option (List Chars)
add_term t none = none
add_term t (some ts) = some (t ∷ ts)

-- The strings of a query of at most so many, and none for a text that is not such a query.
unfoldable pub read_terms : ℕ → Chars → Option (List Chars)
read_terms n [] = none
read_terms zero (c ∷ cs) = none
read_terms (suc n) (c ∷ cs) =
    let later = λ (rest : Chars). read_terms n rest in
    if not (c == 34) then none else elim (read_string false cs) [
      | none ↦ none
      | some p ↦ elim p.1 [
        | [] ↦ some (p.0 ∷ [])
        | d ∷ ds ↦ elim (behind_and (d ∷ ds)) [
          | none ↦ none
          | some rest ↦ add_term p.0 (later rest)
        ]
      ]
    ]

-- For one word or more, the full-text query that joins their quoted forms is read back as these
-- words and nothing else, whatever quotes they contain.
pub read_terms-query :
    (t : Chars) (ts : List Chars)
    → read_terms (suc (length ts)) (join_and (map fts_quote (t ∷ ts))) ≡ some (t ∷ ts)
unfolding read_terms join_and fts_quote behind_and
read_terms-query t [] = rw (read_string-doubled t [] tt) refl
read_terms-query t (u ∷ us) =
    let rest = 32 ∷ 65 ∷ 78 ∷ 68 ∷ 32 ∷ join_and (map fts_quote (u ∷ us)) in
    rw
      (
        append_assoc (doubled t) (34 ∷ []) rest,
        read_string-doubled t rest refl,
        read_terms-query u us,
      )
      refl
