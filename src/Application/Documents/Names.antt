-- ===== src/Application/Documents/Names.antt =====
-- What characters a slug has, and how many.
use merge_mate.Base.{
  ℕ, ◌≤◌, Bool, true, false, ◌||◌, [], ◌∷◌, ◌≡◌, refl, length, take, All, All-take, length-take-le,
  Bool-cases, inl, inr, arith,
}
use merge_mate.Base.Chars.{
  CodePoints, lstrip_of, rstrip_of, All-lstrip_of, All-rstrip_of, length-rstrip_of, ends_with,
  rstrip_of-ends_with,
}
use merge_mate.Application.Documents.Titles.{
  Unicode, is_kept, is_dash, dashed, or_work_item, slug_of, slugify,
}

-- A lower-case letter, a digit or a dash.
abbrev pub IsSlugChar : ℕ → Type 0
IsSlugChar c = (is_kept c || is_dash c) ≡ true

dashed-All : (inside : Bool) (t : CodePoints) → All IsSlugChar (dashed inside t)
unfolding dashed
dashed-All inside [] = tt
dashed-All true (c ∷ t) = elim (Bool-cases (is_kept c)) [
  | inl e ↦ rw e (rw e refl, dashed-All false t)
  | inr e ↦ rw e (dashed-All true t)
]
dashed-All false (c ∷ t) = elim (Bool-cases (is_kept c)) [
  | inl e ↦ rw e (rw e refl, dashed-All false t)
  | inr e ↦ rw e (refl, dashed-All true t)
]

abbrev pub IsSlug : CodePoints → Type 0
IsSlug t = All IsSlugChar t × (1 ≤ length t) × (length t ≤ 80) × (ends_with is_dash t ≡ false)

or_work_item-IsSlug :
    (t : CodePoints)
    → All IsSlugChar t
    → length t ≤ 80
    → ends_with is_dash t ≡ false
    → IsSlug (or_work_item t)
unfolding ends_with
or_work_item-IsSlug [] h n e = (ground arith, omega arith, omega arith, refl)
or_work_item-IsSlug (c ∷ t) h n e = (h, omega arith, n, e)

-- Whatever a plan's title, its slug has only lower-case letters, digits and dashes, has 1 to 80
-- characters, and does not end with a dash.
pub slugify-IsSlug : (u : Unicode) (t : CodePoints) → IsSlug (slugify u t)
unfolding slugify slug_of
slugify-IsSlug u t =
    let runs = dashed false (u.ascii_lower t) in
    let inner = rstrip_of is_dash (lstrip_of is_dash runs) in
    or_work_item-IsSlug (rstrip_of is_dash (take 80 inner))
      (All-rstrip_of IsSlugChar is_dash (take 80 inner) (
        All-take IsSlugChar 80 inner (
          All-rstrip_of IsSlugChar is_dash _
            (All-lstrip_of IsSlugChar is_dash runs (dashed-All false (u.ascii_lower t))))))
      (omega (arith, length-rstrip_of is_dash (take 80 inner), length-take-le 80 inner))
      (rstrip_of-ends_with is_dash (take 80 inner))
