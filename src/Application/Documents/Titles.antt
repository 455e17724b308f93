-- ===== src/Application/Documents/Titles.antt =====
-- src/mergemate/application/services/documentation_service.py, `_slugify` and `_extract_plan_summary`:
-- the part of a file's name and the title that come from the plan, as code points. `str.lower`, the
-- decimal digits of a regular expression, and the folding to ASCII by `unicodedata` and `encode` are
-- parameters.
use merge_mate.Base.{
  ℕ, Bool, true, false, not, ◌&&◌, ◌||◌, Option, none, some, List, [], ◌∷◌, if◌then◌else◌, leb,
  ◌==◌, take,
}
use merge_mate.Base.Chars.{CodePoints, codes, chars_eq, lstrip_of, rstrip_of}
use merge_mate.Telegram.Messages.{is_space}

-- What the service takes from Python: `str.lower`, the test of `\d`, and the lower-case ASCII letters
-- of the normalized text.
pub record Unicode : Type 0 where
  pub lower : CodePoints → CodePoints
  pub is_digit : ℕ → Bool
  pub ascii_lower : CodePoints → CodePoints

-- `_slugify`: every run of other characters is one dash. The Boolean says that the character before
-- was such a one.
abbrev pub is_kept : ℕ → Bool
is_kept c = (leb 97 c && leb c 122) || (leb 48 c && leb c 57)

abbrev pub is_dash : ℕ → Bool
is_dash c = c == 45

unfoldable pub dashed : Bool → CodePoints → CodePoints
dashed inside [] = []
dashed inside (c ∷ t) =
    let rest = dashed (not (is_kept c)) t in
    if is_kept c then c ∷ rest else if inside then rest else 45 ∷ rest

abbrev pub or_work_item : CodePoints → CodePoints
or_work_item [] = codes "work-item"
or_work_item (c ∷ t) = c ∷ t

unfoldable pub slug_of : CodePoints → CodePoints
unfolding dashed
slug_of t =
    or_work_item
      (rstrip_of is_dash (take 80 (rstrip_of is_dash (lstrip_of is_dash (dashed false t)))))

unfoldable pub slugify : Unicode → CodePoints → CodePoints
slugify u t = slug_of (u.ascii_lower t)

-- `str.strip()`
abbrev pub strip : CodePoints → CodePoints
strip t = rstrip_of is_space (lstrip_of is_space t)

-- `str.splitlines()`: the ends of lines, of which `\r\n` is one.
abbrev pub is_line_end : ℕ → Bool
is_line_end c =
    (leb 10 c && leb c 13) || (leb 28 c && leb c 30) || c == 133 || c == 8232 || c == 8233

abbrev pub in_front : ℕ → List CodePoints → List CodePoints
in_front c [] = (c ∷ []) ∷ []
in_front c (line ∷ lines) = (c ∷ line) ∷ lines

-- The Boolean says that the character before was `\r`.
unfoldable pub splitlines : Bool → CodePoints → List CodePoints
splitlines after [] = []
splitlines after (c ∷ t) =
    let rest = splitlines (c == 13) t in
    if after && c == 10 then rest else if is_line_end c then [] ∷ rest else in_front c rest

abbrev pub is_hash : ℕ → Bool
is_hash c = c == 35

unfoldable pub without_hashes : CodePoints → CodePoints
without_hashes [] = []
without_hashes (c ∷ t) = if is_hash c then strip (lstrip_of is_hash (c ∷ t)) else c ∷ t

abbrev pub is_bullet : ℕ → Bool
is_bullet c = c == 45 || (c == 42 || c == 43)

-- `re.sub(r"^[-*+]\s+", "", line)`
unfoldable pub without_bullet : CodePoints → CodePoints
without_bullet (c ∷ d ∷ t) =
    if is_bullet c && is_space d then lstrip_of is_space (d ∷ t) else c ∷ d ∷ t
without_bullet t = t

-- What follows the digits, if it is `[.)]\s+`.
unfoldable pub behind_number : CodePoints → Option CodePoints
behind_number (c ∷ d ∷ t) =
    if (c == 46 || c == 41) && is_space d then some (lstrip_of is_space (d ∷ t)) else none
behind_number _ = none

abbrev pub or_line : CodePoints → Option CodePoints → CodePoints
or_line line none = line
or_line line (some t) = t

-- `re.sub(r"^\d+[.)]\s+", "", line)`
unfoldable pub without_number : Unicode → CodePoints → CodePoints
unfolding behind_number
without_number u [] = []
without_number u (c ∷ t) =
    if u.is_digit c then or_line (c ∷ t) (behind_number (lstrip_of u.is_digit t)) else c ∷ t

unfoldable pub chars_elem : CodePoints → List CodePoints → Bool
chars_elem t [] = false
chars_elem t (x ∷ xs) = chars_eq x t || chars_elem t xs

abbrev pub plain_headings : List CodePoints
plain_headings =
    codes "approved plan"
    ∷ codes "plan"
    ∷ codes "implementation plan"
    ∷ codes "requirements"
    ∷ codes "scope"
    ∷ []

abbrev pub is_colon : ℕ → Bool
is_colon c = c == 58

unfoldable pub line_text : Unicode → CodePoints → CodePoints
unfolding without_hashes without_bullet without_number
line_text u line = without_number u (without_bullet (without_hashes line))

-- A line that is empty or a plain heading is passed over.
abbrev pub is_passed : Unicode → CodePoints → Bool
is_passed u [] = true
is_passed u (c ∷ t) = chars_elem (rstrip_of is_colon (u.lower (line_text u (c ∷ t)))) plain_headings

unfoldable pub summary_of : Unicode → List CodePoints → CodePoints
unfolding line_text
summary_of u [] = codes "Work Item"
summary_of u (raw ∷ lines) =
    let rest = summary_of u lines in
    if is_passed u (strip raw) then rest else rstrip_of is_space (take 80 (line_text u (strip raw)))

-- `_extract_plan_summary`
unfoldable pub extract_plan_summary : Unicode → CodePoints → CodePoints
unfolding splitlines summary_of
extract_plan_summary u plan = summary_of u (splitlines false plan)
