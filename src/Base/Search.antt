-- ===== src/Base/Search.antt =====
-- What the searches of a table find, as properties of all rows.
use mathlib.Core.Path.{◌≡◌, refl, subst}
use mathlib.Core.Logic.{inl, inr}
use mathlib.Core.Bool.{Bool, true, false}
use mathlib.Core.Option.{none, some, some-injective}
use mathlib.Core.List.{List, [], ◌∷◌, Memᴰ}
use merge_mate.Base.Tests.{Bool-cases}
use merge_mate.Base.Lists.{find, select, All, All-mp}

module _ {ℓ κ} {A : Type ℓ} (P : A → Type κ) where
  pub select-All : (q : A → Bool) (t : List A) → All P (select q t) → All (λ x. q x ≡ true → P x) t
  unfolding select
  select-All q [] h = tt
  select-All q (x ∷ t) h = elim (Bool-cases (q x)) [
    | inl e ↦ let h' : P x × All P (select q t) = rw e at h in ((λ _. h'.0), select-All q t h'.1)
    | inr e ↦ let h' : All P (select q t) = rw e at h in ((λ y. cc (e, y)), select-All q t h')
  ]

  pub All-find : (p : A → Bool) (t : List A) (r : A) → All P t → find p t ≡ some r → P r
  unfolding find
  All-find p [] r h e = cc
  All-find p (x ∷ t) r h e = elim (Bool-cases (p x)) [
    | inl b ↦ subst P (some-injective x r (rw b at e)) h.0
    | inr b ↦ All-find p t r h.1 (rw b at e)
  ]

module _ {ℓ} {A : Type ℓ} where
  pub find-absent : (p : A → Bool) (t : List A) → find p t ≡ none → All (λ x. p x ≡ false) t
  unfolding find
  find-absent p [] e = tt
  find-absent p (x ∷ t) e = elim (Bool-cases (p x)) [
    | inl b ↦ cc (rw b at e)
    | inr b ↦ (b, find-absent p t (rw b at e))
  ]

  pub All-self : (t : List A) → All (λ x. Memᴰ x t) t
  All-self [] = tt
  All-self (x ∷ t) = (Memᴰ.head refl, All-mp _ _ (λ y m. Memᴰ.tail m) t (All-self t))

  pub All-pair {κ μ} :
      (P : A → Type κ) (Q : A → Type μ) (t : List A) → All P t → All Q t → All (λ x. P x × Q x) t
  All-pair P Q [] h k = tt
  All-pair P Q (x ∷ t) h k = ((h.0, k.0), All-pair P Q t h.1 k.1)

  pub select-holds : (q : A → Bool) (t : List A) → All (λ x. q x ≡ true) (select q t)
  unfolding select
  select-holds q [] = tt
  select-holds q (x ∷ t) = elim (Bool-cases (q x)) [
    | inl e ↦ rw e (e, select-holds q t)
    | inr e ↦ rw e (select-holds q t)
  ]
