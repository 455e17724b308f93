-- ===== src/Telegram/Presenter/Elapsed.antt =====
-- The ages that src/mergemate/interfaces/telegram/presenter.py tells.
use merge_mate.Base.{
  ℕ, ◌+◌, ◌-◌, ◌*◌, ◌≤◌, ◌<◌, String, if◌then◌else◌, ltb, str_eq, Bool-cases, inl, inr, arith,
}
use merge_mate.Telegram.Presenter.{Printing, relative_age}

abbrev pub unit_seconds : String → ℕ
unit_seconds unit =
    if str_eq unit "s ago"
    then 1
    else if str_eq unit "m ago"
    then 60
    else if str_eq unit "h ago"
    then 3600
    else 86400

-- The age that is told is not more than the age, and less than one unit below it.
pub relative_age-bounds :
    (p : Printing) (now at : ℕ)
    → let age = relative_age p now at in
      (age.0 * unit_seconds age.1 ≤ now - at) × (now - at < (age.0 + 1) * unit_seconds age.1)
unfolding relative_age
relative_age-bounds p now at = elim (Bool-cases (ltb (now - at) 60)) [
  | inl a ↦ rw a (ground (arith, a), ground (arith, a))
  | inr a ↦ elim (Bool-cases (ltb (now - at) 3600)) [
    | inl b ↦ rw (a, b) (ground (arith, a, b), ground (arith, a, b))
    | inr b ↦ elim (Bool-cases (ltb (now - at) 86400)) [
      | inl c ↦ rw (a, b, c) (ground (arith, b, c), ground (arith, b, c))
      | inr c ↦ rw (a, b, c) (ground (arith, c), ground (arith, c))
    ]
  ]
]
