-- ===== src/Base/Keys.antt =====
-- Tables with a primary key: rows are found by the text of their key.
use Prim.Native.String.{String}
use mathlib.Core.Path.{◌≡◌, refl, sym, ap, subst, ◌∙◌}
use mathlib.Core.Logic.{inl, inr}
use mathlib.Core.Bool.{Bool, true, false, ◌&&◌}
use mathlib.Core.Option.{Option, none, some}
use mathlib.Core.List.{List, [], ◌∷◌, ◌++◌}
use native.Mathlib.Omega.{arith}
use text.Mathlib.Text.{◌==◌ as str_eq}
use text.Mathlib.TextEquality.{eq_iff}
use merge_mate.Base.Tests.{if◌then◌else◌, Bool-cases, Option-cases, ltb}
use merge_mate.Base.Lists.{find, count_where, update_where}

abbrev pub by_key {ℓ} : {A : Type ℓ} → (A → String) → String → A → Bool
by_key key id r = str_eq (key r) id

abbrev pub option_map {ℓ κ} : {A : Type ℓ} {B : Type κ} → (A → B) → Option A → Option B
option_map f none = none
option_map f (some a) = some (f a)

module _ {ℓ} {A : Type ℓ} where
  -- An update that does not change what the search tests changes only the row that is found.
  pub find-update_where :
      (p h : A → Bool) (f : A → A) (keep : (x : A) → p (f x) ≡ p x) (xs : List A)
      → find p (update_where h f xs) ≡ option_map (λ x. if h x then f x else x) (find p xs)
  unfolding find update_where
  find-update_where p h f keep [] = refl
  find-update_where p h f keep (x ∷ xs) = ground (arith, keep x, find-update_where p h f keep xs)

  pub count_where-absent :
      (p q : A → Bool) (xs : List A) → find p xs ≡ none → count_where (λ x. p x && q x) xs ≡ 0
  unfolding find count_where
  count_where-absent p q [] h = refl
  count_where-absent p q (x ∷ xs) h = ground (arith, count_where-absent p q xs)

  pub update_where-absent :
      (p q : A → Bool) (f : A → A) (xs : List A)
      → find p xs ≡ none
      → update_where (λ x. p x && q x) f xs ≡ xs
  unfolding find update_where
  update_where-absent p q f [] h = refl
  update_where-absent p q f (x ∷ xs) h = ground (arith, update_where-absent p q f xs)

  pub find-append :
      (p : A → Bool) (xs ys : List A)
      → find p (xs ++ ys) ≡ elim (find p xs) [ none ↦ find p ys | some x ↦ some x ]
  unfolding find
  find-append p [] ys = refl
  find-append p (x ∷ xs) ys = ground (arith, find-append p xs ys)

  pub find_holds : (p : A → Bool) (xs : List A) (x : A) → find p xs ≡ some x → p x ≡ true
  unfolding find
  find_holds p [] x h = ground arith
  find_holds p (y ∷ xs) x h = ground (arith, find_holds p xs x)

module _ {ℓ} {A : Type ℓ} (key : A → String) where
  -- No two rows have one key.
  abbrev pub IsKeyed : List A → Type ℓ
  IsKeyed [] = Unit
  IsKeyed (r ∷ t) = (find (by_key key (key r)) t ≡ none) × IsKeyed t

  pub IsKeyed-update_where :
      (h : A → Bool) (f : A → A) (keep : (x : A) → key (f x) ≡ key x) (t : List A)
      → IsKeyed t
      → IsKeyed (update_where h f t)
  unfolding update_where
  IsKeyed-update_where h f keep [] k = tt
  IsKeyed-update_where h f keep (r ∷ t) k = (
    subst (λ c. find (by_key key c) (update_where h f t) ≡ none) (sym same)
        (rw
          (
            find-update_where (by_key key (key r)) h f (λ x. ap (λ c. str_eq c (key r)) (keep x)) t,
            k.0,
          )
          refl),
    IsKeyed-update_where h f keep t k.1,
  )
    where
      same : key (if h r then f r else r) ≡ key r
      same = ground (arith, keep r)

  -- With distinct keys the row count of an update tells whether the row with the key passed.
  pub count_where-keyed :
      (id : String) (q : A → Bool) (t : List A) (r : A)
      → IsKeyed t
      → find (by_key key id) t ≡ some r
      → ltb 0 (count_where (λ x. by_key key id x && q x) t) ≡ q r
  unfolding find count_where
  count_where-keyed id q [] r k h = ground arith
  count_where-keyed id q (x ∷ t) r k h = elim (Bool-cases (by_key key id x)) [
    | inl here ↦
        let absent : find (by_key key id) t ≡ none =
          subst (λ c. find (by_key key c) t ≡ none) ((eq_iff (key x) id).0 here) k.0 in
        ground (arith, count_where-absent (by_key key id) q t)
    | inr there ↦ ground (arith, count_where-keyed id q t r k.1)
  ]

  module _ (f : A → A) (keep : (x : A) → key (f x) ≡ key x) where
    -- The row with the key after an update of the rows with that key.
    pub find-update_self :
        (id : String) (q : A → Bool) (t : List A) (r : A)
        → find (by_key key id) t ≡ some r
        → find (by_key key id) (update_where (λ x. by_key key id x && q x) f t)
          ≡ some (if q r then f r else r)
    find-update_self id q t r h =
        find-update_where (by_key key id) _ f (λ x. ap (λ c. str_eq c id) (keep x)) t
        ∙ ap (option_map (λ x. if by_key key id x && q x then f x else x)) h
        ∙ ground (arith, find_holds (by_key key id) t r h)

    -- A row with another key is left alone.
    pub find-update_other :
        (id j : String) (q : A → Bool) (t : List A)
        → str_eq id j ≡ false
        → find (by_key key j) (update_where (λ x. by_key key id x && q x) f t)
          ≡ find (by_key key j) t
    find-update_other id j q t other =
        find-update_where (by_key key j) _ f (λ x. ap (λ c. str_eq c j) (keep x)) t
        ∙ elim (Option-cases (find (by_key key j) t)) [
          | inl e ↦ rw e
          | inr (r, e) ↦ rw e (
              ground (
                arith,
                find_holds (by_key key j) t r e,
                eq_iff (key r) j,
                eq_iff (key r) id,
                eq_iff id j,
              ))
        ]

    pub find-update_key :
        (id : String) (t : List A) (r : A)
        → find (by_key key id) t ≡ some r
        → find (by_key key id) (update_where (by_key key id) f t) ≡ some (f r)
    find-update_key id t r h =
        find-update_where (by_key key id) _ f (λ x. ap (λ c. str_eq c id) (keep x)) t
        ∙ ap (option_map (λ x. if by_key key id x then f x else x)) h
        ∙ ground (arith, find_holds (by_key key id) t r h)

    pub find-update_key_other :
        (id j : String) (t : List A)
        → str_eq id j ≡ false
        → find (by_key key j) (update_where (by_key key id) f t) ≡ find (by_key key j) t
    find-update_key_other id j t other =
        find-update_where (by_key key j) _ f (λ x. ap (λ c. str_eq c j) (keep x)) t
        ∙ elim (Option-cases (find (by_key key j) t)) [
          | inl e ↦ rw e
          | inr (r, e) ↦ rw e (
              ground (
                arith,
                find_holds (by_key key j) t r e,
                eq_iff (key r) j,
                eq_iff (key r) id,
                eq_iff id j,
              ))
        ]

  -- With distinct keys an update whose extra test the row fails changes nothing.
  pub update_where-refused :
      (id : String) (q : A → Bool) (f : A → A) (t : List A) (r : A)
      → IsKeyed t
      → find (by_key key id) t ≡ some r
      → q r ≡ false
      → update_where (λ x. by_key key id x && q x) f t ≡ t
  unfolding find update_where
  update_where-refused id q f [] r k h no_match = refl
  update_where-refused id q f (x ∷ t) r k h no_match = elim (Bool-cases (by_key key id x)) [
    | inl here ↦
        let absent : find (by_key key id) t ≡ none =
          subst (λ c. find (by_key key c) t ≡ none) ((eq_iff (key x) id).0 here) k.0 in
        ground (arith, update_where-absent (by_key key id) q f t absent)
    | inr there ↦ ground (arith, update_where-refused id q f t r k.1)
  ]
