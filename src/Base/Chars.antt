-- ===== src/Base/Chars.antt =====
-- Texts as lists of code points, where the source walks their characters: equality, stripping, lines,
-- and the decimal print of a number.
use Prim.Native.Char.{code}
use Prim.Native.Nat.{ℕ, zero, suc, ◌+◌, ◌-◌, ◌*◌, ◌/◌, ◌%◌, ◌≤◌, ◌<◌}
use Prim.Native.String.{String}
use mathlib.Core.Path.{◌≡◌, refl, sym, ap, ◌∙◌}
use mathlib.Core.Logic.{inl, inr}
use mathlib.Core.Bool.{Bool, true, false, ◌&&◌}
use mathlib.Core.List.{List, [], ◌∷◌, ◌++◌, reverse, reverse-reverse}
use native.Mathlib.Omega.{arith}
use merge_mate.Base.Tests.{if◌then◌else◌, Bool-cases, ◌==◌, ltb}
use merge_mate.Base.Lists.{All, length}

abbrev pub CodePoints : Type 0
CodePoints = List ℕ

-- The code points of a native text. `String` has its own `[]` and `∷`.
abbrev pub codes : String → CodePoints
codes String.[] = []
codes (String.◌∷◌ c s) = code c ∷ codes s

abbrev pub chars_eq : CodePoints → CodePoints → Bool
chars_eq [] [] = true
chars_eq (a ∷ s) (b ∷ t) = a == b && chars_eq s t
chars_eq _ _ = false

pub chars_eq_refl : (s : CodePoints) → chars_eq s s ≡ true
chars_eq_refl [] = refl
chars_eq_refl (a ∷ s) = ground (arith, chars_eq_refl s)

pub chars_eq→eq : (s t : CodePoints) → chars_eq s t ≡ true → s ≡ t
chars_eq→eq [] [] h = refl
chars_eq→eq [] (b ∷ t) h = cc
chars_eq→eq (a ∷ s) [] h = cc
chars_eq→eq (a ∷ s) (b ∷ t) h =
    let first : a ≡ b = ground (arith, h) in
    let rest : s ≡ t = chars_eq→eq s t (ground (arith, h)) in cc (first, rest)

-- `text.lstrip(chars)` and `text.rstrip(chars)`, for the test of the characters.
unfoldable pub lstrip_of : (ℕ → Bool) → CodePoints → CodePoints
lstrip_of p [] = []
lstrip_of p (c ∷ t) = let rest = lstrip_of p t in if p c then rest else c ∷ t

unfoldable pub kept_of : (ℕ → Bool) → ℕ → CodePoints → CodePoints
kept_of p c [] = if p c then [] else c ∷ []
kept_of p c (d ∷ u) = c ∷ d ∷ u

unfoldable pub rstrip_of : (ℕ → Bool) → CodePoints → CodePoints
unfolding kept_of
rstrip_of p [] = []
rstrip_of p (c ∷ t) = kept_of p c (rstrip_of p t)

-- The test of the last character.
unfoldable pub ends_with : (ℕ → Bool) → CodePoints → Bool
ends_with p [] = false
ends_with p (c ∷ []) = p c
ends_with p (c ∷ d ∷ u) = ends_with p (d ∷ u)

kept_of-ends_with :
    (p : ℕ → Bool) (c : ℕ) (t : CodePoints)
    → ends_with p t ≡ false
    → ends_with p (kept_of p c t) ≡ false
unfolding ends_with kept_of
kept_of-ends_with p c [] h = elim (Bool-cases (p c)) [ inl e ↦ rw e refl | inr e ↦ rw (e, e) refl ]
kept_of-ends_with p c (d ∷ u) h = h

pub rstrip_of-ends_with : (p : ℕ → Bool) (t : CodePoints) → ends_with p (rstrip_of p t) ≡ false
unfolding rstrip_of ends_with
rstrip_of-ends_with p [] = refl
rstrip_of-ends_with p (c ∷ t) = kept_of-ends_with p c (rstrip_of p t) (rstrip_of-ends_with p t)

module _ (P : ℕ → Type 0) (p : ℕ → Bool) where
  pub All-lstrip_of : (t : CodePoints) → All P t → All P (lstrip_of p t)
  unfolding lstrip_of
  All-lstrip_of [] h = tt
  All-lstrip_of (c ∷ t) h = elim (Bool-cases (p c)) [
    | inl e ↦ rw e (All-lstrip_of t h.1)
    | inr e ↦ rw e h
  ]

  All-kept_of : (c : ℕ) (t : CodePoints) → P c → All P t → All P (kept_of p c t)
  unfolding kept_of
  All-kept_of c [] h hs = elim (Bool-cases (p c)) [ inl e ↦ rw e tt | inr e ↦ rw e (h, tt) ]
  All-kept_of c (d ∷ u) h hs = (h, hs)

  pub All-rstrip_of : (t : CodePoints) → All P t → All P (rstrip_of p t)
  unfolding rstrip_of
  All-rstrip_of [] h = tt
  All-rstrip_of (c ∷ t) h = All-kept_of c (rstrip_of p t) h.0 (All-rstrip_of t h.1)

length-kept_of : (p : ℕ → Bool) (c : ℕ) (t : CodePoints) → length (kept_of p c t) ≤ suc (length t)
unfolding kept_of
length-kept_of p c [] = ground arith
length-kept_of p c (d ∷ u) = omega arith

pub length-rstrip_of : (p : ℕ → Bool) (t : CodePoints) → length (rstrip_of p t) ≤ length t
unfolding rstrip_of
length-rstrip_of p [] = omega arith
length-rstrip_of p (c ∷ t) = omega (arith, length-kept_of p c (rstrip_of p t), length-rstrip_of p t)

-- `separator.join`
unfoldable pub join_chars : CodePoints → List CodePoints → CodePoints
join_chars separator [] = []
join_chars separator (t ∷ []) = t
join_chars separator (t ∷ u ∷ rest) = t ++ separator ++ join_chars separator (u ∷ rest)

-- The decimal print, the last digit first, for a fuel that exceeds the number.
unfoldable pub low_digits : ℕ → ℕ → CodePoints
low_digits zero n = []
low_digits (suc fuel) n =
    let rest = low_digits fuel (n / 10) in if ltb n 10 then (48 + n) ∷ [] else (48 + n % 10) ∷ rest

-- `str(n)`
unfoldable pub decimal : ℕ → CodePoints
unfolding low_digits
decimal n = reverse (low_digits (suc n) n)

low_value : CodePoints → ℕ
low_value [] = 0
low_value (c ∷ t) = (c - 48) + 10 * low_value t

low_value-low_digits : (fuel n : ℕ) → n < fuel → low_value (low_digits fuel n) ≡ n
unfolding low_value low_digits
low_value-low_digits zero n h = omega arith
low_value-low_digits (suc fuel) n h = ground (arith, h, low_value-low_digits fuel (n / 10))

pub decimal_inj : (m n : ℕ) → decimal m ≡ decimal n → m ≡ n
unfolding decimal
decimal_inj m n h =
    let same : low_digits (suc m) m ≡ low_digits (suc n) n =
      sym (reverse-reverse _) ∙ ap reverse h ∙ reverse-reverse _ in
    sym (low_value-low_digits (suc m) m (omega arith))
    ∙ ap low_value same
    ∙ low_value-low_digits (suc n) n (omega arith)
