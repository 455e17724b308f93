-- ===== src/Application/Documents/Fresh.antt =====
-- The search of `_build_document_path` for a name that no file of the section has.
use mathlib.Core.List.{append_cancel_left, append_cancel_right}
use merge_mate.Base.{
  ℕ, zero, suc, ◌+◌, ◌≤◌, ◌<◌, true, false, not, some, List, [], ◌∷◌, ◌++◌, ◌≡◌, ◌≢◌, refl, ap, ◌∙◌,
  sym, length, select, Bool-cases, inl, inr, arith,
}
use merge_mate.Base.Chars.{CodePoints, chars_eq, chars_eq→eq, decimal, decimal_inj}
use merge_mate.Application.Documents.Titles.{Unicode, chars_elem, slugify}
use merge_mate.Application.Documents.{
  md, numbered, deduplicated, build_document_path, with_iteration, with_suffix,
}

numbered_inj : (root : CodePoints) (j k : ℕ) → numbered root j ≡ numbered root k → j ≡ k
numbered_inj root j k h =
    let tails : 45 ∷ decimal j ≡ 45 ∷ decimal k =
      append_cancel_left root _ _ (append_cancel_right _ _ md h) in
    decimal_inj j k (cc tails)

chars_eq_ne : (s t : CodePoints) → s ≢ t → chars_eq s t ≡ false
chars_eq_ne s t h = elim (Bool-cases (chars_eq s t)) [
  | inl e ↦ absurd (h (chars_eq→eq s t e))
  | inr e ↦ e
]

-- The names but for one of them.
abbrev without : CodePoints → List CodePoints → List CodePoints
without x names = select (λ y. not (chars_eq y x)) names

chars_elem-without :
    (x t : CodePoints) (names : List CodePoints)
    → chars_eq x t ≡ false
    → chars_elem t (without x names) ≡ chars_elem t names
unfolding chars_elem select
chars_elem-without x t [] h = refl
chars_elem-without x t (y ∷ ys) h = elim (Bool-cases (chars_eq y x)) [
  | inl e ↦
      let differs : chars_eq y t ≡ false = ap (λ v. chars_eq v t) (chars_eq→eq y x e) ∙ h in
      rw (e, differs) (chars_elem-without x t ys h)
  | inr e ↦ rw (e, chars_elem-without x t ys h) refl
]

length-without-le :
    (x : CodePoints) (names : List CodePoints) → length (without x names) ≤ length names
unfolding select
length-without-le x [] = omega arith
length-without-le x (y ∷ ys) = ground (arith, length-without-le x ys)

length-without-lt :
    (x : CodePoints) (names : List CodePoints)
    → chars_elem x names ≡ true
    → length (without x names) < length names
unfolding chars_elem select
length-without-lt x [] h = cc
length-without-lt x (y ∷ ys) h = ground (arith, h, length-without-le x ys, length-without-lt x ys)

-- A name that no later counter gives does not matter to the search.
deduplicated-without :
    (fuel : ℕ) (x : CodePoints) (taken : List CodePoints) (root : CodePoints) (counter : ℕ)
    → ((k : ℕ) → counter ≤ k → numbered root k ≢ x)
    → deduplicated fuel (without x taken) root counter ≡ deduplicated fuel taken root counter
unfolding deduplicated
deduplicated-without zero x taken root counter h = refl
deduplicated-without (suc fuel) x taken root counter h =
    rw
      (
        chars_elem-without x (numbered root counter) taken
            (chars_eq_ne _ _ (λ e. h counter (omega arith) (sym e))),
        deduplicated-without fuel x taken root (counter + 1) (λ k le. h k (omega arith)),
      )
      refl

deduplicated-fresh :
    (fuel : ℕ) (taken : List CodePoints) (root : CodePoints) (counter : ℕ) (name : CodePoints)
    → deduplicated fuel taken root counter ≡ some name
    → chars_elem name taken ≡ false
unfolding deduplicated
deduplicated-fresh zero taken root counter name h = cc
deduplicated-fresh (suc fuel) taken root counter name h =
    elim (Bool-cases (chars_elem (numbered root counter) taken)) [
      | inl e ↦ deduplicated-fresh fuel taken root (counter + 1) name (rw e at h)
      | inr e ↦ let same : numbered root counter ≡ name = cc (rw e at h) in rw (sym same) e
    ]

deduplicated-total :
    (fuel : ℕ) (taken : List CodePoints) (root : CodePoints) (counter : ℕ)
    → length taken < fuel
    → (name : CodePoints) × (deduplicated fuel taken root counter ≡ some name)
unfolding deduplicated
deduplicated-total zero taken root counter h = absurd (omega arith)
deduplicated-total (suc fuel) taken root counter h =
    elim (Bool-cases (chars_elem (numbered root counter) taken)) [
      | inr e ↦ rw e (numbered root counter, refl)
      | inl e ↦
          let x = numbered root counter in
          let (name, found) =
            deduplicated-total fuel (without x taken) root (counter + 1)
              (omega (arith, length-without-lt x taken e)) in
          rw e (
            name,
            sym (
                  deduplicated-without fuel x taken root (counter + 1)
                    (λ k le same. omega (arith, numbered_inj root k counter same)))
                ∙ found,
          )
    ]

-- Whatever files there are, the loop finds a name, and no file has it.
pub build_document_path-fresh :
    (u : Unicode) (taken : List CodePoints) (summary suffix : CodePoints) (iteration : ℕ)
    → (name : CodePoints) × (build_document_path u taken summary suffix iteration ≡ some name)
      × (chars_elem name taken ≡ false)
unfolding build_document_path
build_document_path-fresh u taken summary suffix iteration =
    let root = with_iteration iteration (with_suffix (slugify u summary) suffix) in
    elim (Bool-cases (chars_elem (root ++ md) taken)) [
      | inr e ↦ rw e (root ++ md, refl, e)
      | inl e ↦
          let (name, found) = deduplicated-total (suc (length taken)) taken root 2 (omega arith) in
          rw e (name, found, deduplicated-fresh (suc (length taken)) taken root 2 name found)
    ]
