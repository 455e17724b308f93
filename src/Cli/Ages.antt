-- ===== src/Cli/Ages.antt =====
-- src/mergemate/cli.py, `_format_age`; a `datetime` is its whole seconds.
use merge_mate.Base.{
  ℕ, ◌+◌, ◌-◌, ◌*◌, ◌/◌, ◌%◌, Option, List, [], ◌∷◌, ◌++◌, ◌≡◌, map, if◌then◌else◌, ◌==◌, ltb,
  option_map, arith,
}
use merge_mate.Base.Chars.{CodePoints, join_chars, decimal}

-- A count and its unit, with the seconds of the unit.
pub record Part : Type 0 where
  pub count : ℕ
  pub letter : ℕ
  pub seconds : ℕ

abbrev pub part_of : ℕ → ℕ → ℕ → Part
part_of count letter seconds = record { count = count; letter = letter; seconds = seconds }

-- `if count: parts.append(…)`
unfoldable pub unless_zero : Part → List Part
unless_zero p = if p.count == 0 then [] else p ∷ []

abbrev pub or_seconds : ℕ → List Part → List Part
or_seconds seconds [] = part_of seconds b's' 1 ∷ []
or_seconds seconds (p ∷ ps) = p ∷ ps

unfoldable pub age_parts : ℕ → List Part
unfolding unless_zero
age_parts total =
    let rest = total % 86400 in
    or_seconds (rest % 3600 % 60) (
      unless_zero (part_of (total / 86400) b'd' 86400)
      ++ unless_zero (part_of (rest / 3600) b'h' 3600)
      ++ unless_zero (part_of (rest % 3600 / 60) b'm' 60))

abbrev pub part_text : Part → CodePoints
part_text p = decimal p.count ++ p.letter ∷ []

unfoldable pub format_age : Option ℕ → ℕ → Option CodePoints
unfolding age_parts
format_age value now =
    option_map (λ v. join_chars (32 ∷ []) (map part_text (age_parts (now - v)))) value

-- What the parts say.
pub seconds_of : List Part → ℕ
seconds_of [] = 0
seconds_of (p ∷ ps) = p.count * p.seconds + seconds_of ps

-- The parts say the age, rounded down to the minute from one minute on.
pub age_parts_lem :
    (total : ℕ)
    → seconds_of (age_parts total) ≡ (if ltb total 60 then total else total - total % 60)
unfolding age_parts unless_zero seconds_of
age_parts_lem total = ground arith
