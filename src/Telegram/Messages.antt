-- ===== src/Telegram/Messages.antt =====
-- src/mergemate/interfaces/telegram/message_utils.py. A text is the list of its code points.
pub mod Chunks
use merge_mate.Base.{
  ℕ, zero, suc, ◌+◌, ◌-◌, ◌/◌, Bool, true, false, ◌||◌, ◌&&◌, Option, none, some, List, [], ◌∷◌,
  if◌then◌else◌, ltb, leb, ◌==◌, length, take, drop, option_map,
}

abbrev pub Text : Type 0
Text = List ℕ

abbrev pub newline : ℕ
newline = 10

-- `str.isspace` of one character.
unfoldable pub is_space : ℕ → Bool
is_space c =
    (leb 9 c && leb c 13)
    || (leb 28 c && leb c 32)
    || c == 133
    || c == 160
    || c == 5760
    || (leb 8192 c && leb c 8202)
    || c == 8232
    || c == 8233
    || c == 8239
    || c == 8287
    || c == 12288

-- `text.rfind("\n")`, none where it is -1.
unfoldable pub rfind_newline : Text → Option ℕ
rfind_newline [] = none
rfind_newline (c ∷ t) = elim (rfind_newline t) [
  | some i ↦ some (suc i)
  | none ↦ if c == newline then some 0 else none
]

-- A character in front of what is left of the text behind it.
unfoldable pub before_stripped : ℕ → Text → Text
before_stripped c [] = if is_space c then [] else c ∷ []
before_stripped c (d ∷ u) = c ∷ d ∷ u

-- `text.rstrip()`
unfoldable pub rstrip : Text → Text
rstrip [] = []
rstrip (c ∷ t) = before_stripped c (rstrip t)

-- `text.lstrip("\n")`
unfoldable pub lstrip_newlines : Text → Text
lstrip_newlines [] = []
lstrip_newlines (c ∷ t) = let rest = lstrip_newlines t in if c == newline then rest else c ∷ t

unfoldable pub split_point : ℕ → Text → ℕ
split_point limit remaining = elim (rfind_newline (take limit remaining)) [
  | none ↦ limit
  | some at ↦ if leb at 0 || ltb at (limit / 2) then limit else at
]

-- The loop; none says that the fuel ran out.
unfoldable pub chunks : ℕ → ℕ → Text → Option (List Text)
chunks zero limit remaining = none
chunks (suc fuel) limit [] = some []
chunks (suc fuel) limit (c ∷ t) =
    let at = split_point limit (c ∷ t) in
    let rest = chunks fuel limit (lstrip_newlines (drop at (c ∷ t))) in
    if leb (length (c ∷ t)) limit
    then some ((c ∷ t) ∷ [])
    else option_map (λ out. rstrip (take at (c ∷ t)) ∷ out) rest

-- Every pass takes a character away, so the length and one more are enough passes.
unfoldable pub split_telegram_message : ℕ → Text → Option (List Text)
unfolding chunks
split_telegram_message limit text =
    if leb (length text) limit then some (text ∷ []) else chunks (suc (length text)) limit text
