-- ===== src/Telegram/Messages/Chunks.antt =====
-- The parts of a long message: they are found, they fit, and nothing but white space is lost.
use merge_mate.Base.{
  ℕ, zero, suc, ◌≤◌, ◌<◌, ◌≡◌, refl, sym, ap, ◌∙◌, not, some, List, [], ◌∷◌, ◌++◌, inl, inr, leb,
  leb→le, ◌==◌, length, take, drop, All, select, Bool-cases, Option-cases, arith, length-take-le,
  length-drop, take-append-drop, select-append,
}
use mathlib.Core.List.{append-nil}
use merge_mate.Telegram.Messages.{
  Text, newline, is_space, rfind_newline, before_stripped, rstrip, lstrip_newlines, split_point,
  chunks, split_telegram_message,
}

length-before_stripped-le : (c : ℕ) (u : Text) → length (before_stripped c u) ≤ suc (length u)
unfolding before_stripped
length-before_stripped-le c [] = ground arith
length-before_stripped-le c (d ∷ u) = omega arith

length-rstrip-le : (t : Text) → length (rstrip t) ≤ length t
unfolding rstrip
length-rstrip-le [] = omega arith
length-rstrip-le (c ∷ t) = omega (arith, length-rstrip-le t, length-before_stripped-le c (rstrip t))

length-lstrip_newlines-le : (t : Text) → length (lstrip_newlines t) ≤ length t
unfolding lstrip_newlines
length-lstrip_newlines-le [] = omega arith
length-lstrip_newlines-le (c ∷ t) = ground (arith, length-lstrip_newlines-le t)

rfind_newline-lt : (t : Text) (i : ℕ) → rfind_newline t ≡ some i → i < length t
unfolding rfind_newline
rfind_newline-lt [] i h = ground arith
rfind_newline-lt (c ∷ t) i h = elim (Option-cases (rfind_newline t)) [
  | inl e ↦ ground arith
  | inr (j, e) ↦ ground (arith, rfind_newline-lt t j e)
]

split_point_bounds :
    (limit : ℕ) (t : Text) → 0 < limit → (0 < split_point limit t) × (split_point limit t ≤ limit)
unfolding split_point
split_point_bounds limit t h = elim (Option-cases (rfind_newline (take limit t))) [
  | inl e ↦ rw (e, split_point) (h, omega arith)
  | inr (i, e) ↦
      let below : i < length (take limit t) = rfind_newline-lt (take limit t) i e in
      rw (e, split_point) (ground (arith, length-take-le limit t))
]

-- The characters that are no white space.
abbrev pub solid : Text → Text
solid t = select (λ c. not (is_space c)) t

abbrev pub concat : List Text → Text
concat [] = []
concat (t ∷ ts) = t ++ concat ts

solid-before_stripped : (c : ℕ) (u : Text) → solid (before_stripped c u) ≡ solid (c ∷ u)
unfolding before_stripped select
solid-before_stripped c [] = elim (Bool-cases (is_space c)) [
  | inl e ↦ rw e refl
  | inr e ↦ rw e (rw e refl)
]
solid-before_stripped c (d ∷ u) = refl

solid-cons : (c : ℕ) (t u : Text) → solid t ≡ solid u → solid (c ∷ t) ≡ solid (c ∷ u)
unfolding select
solid-cons c t u h = rw h refl

solid-rstrip : (t : Text) → solid (rstrip t) ≡ solid t
unfolding rstrip
solid-rstrip [] = refl
solid-rstrip (c ∷ t) =
    solid-before_stripped c (rstrip t) ∙ solid-cons c (rstrip t) t (solid-rstrip t)

solid-newline : (t : Text) → solid (newline ∷ t) ≡ solid t
unfolding select is_space
solid-newline t = refl

solid-lstrip_newlines : (t : Text) → solid (lstrip_newlines t) ≡ solid t
unfolding lstrip_newlines
solid-lstrip_newlines [] = refl
solid-lstrip_newlines (c ∷ t) = elim (Bool-cases (c == newline)) [
  | inl e ↦
      let same : c ≡ newline = ground arith in
      rw e (solid-lstrip_newlines t ∙ sym (rw same (solid-newline t)))
  | inr e ↦ rw e refl
]

-- The parts that come back, and their text.
abbrev pub IsDivided : ℕ → Text → List Text → Type 0
IsDivided limit t out = All (λ u. length u ≤ limit) out × (solid (concat out) ≡ solid t)

joined :
    (at : ℕ) (t : Text) (out : List Text)
    → solid (concat out) ≡ solid (drop at t)
    → solid (concat (rstrip (take at t) ∷ out)) ≡ solid t
joined at t out h =
    select-append (λ c. not (is_space c)) (rstrip (take at t)) (concat out)
    ∙ (ap (λ x. x ++ solid (concat out)) (solid-rstrip (take at t))
        ∙ (ap (λ x. solid (take at t) ++ x) h
            ∙ (sym (select-append (λ c. not (is_space c)) (take at t) (drop at t))
                ∙ ap solid (take-append-drop at t))))

chunks_lem :
    (fuel limit : ℕ) (t : Text)
    → 0 < limit
    → length t < fuel
    → (out : List Text) × (chunks fuel limit t ≡ some out) × IsDivided limit t out
unfolding chunks
chunks_lem zero limit t h enough = absurd (omega arith)
chunks_lem (suc fuel) limit [] h enough = ([], refl, (tt, refl))
chunks_lem (suc fuel) limit (c ∷ t) h enough =
    let at = split_point limit (c ∷ t) in
    let rest = lstrip_newlines (drop at (c ∷ t)) in
    let (low, high) = split_point_bounds limit (c ∷ t) h in
    let shorter : length rest < fuel =
      omega (arith, length-lstrip_newlines-le (drop at (c ∷ t)), length-drop at (c ∷ t)) in
    elim (Bool-cases (leb (length (c ∷ t)) limit)) [
      | inl e ↦ (
        (c ∷ t) ∷ [],
        rw e refl,
        ((leb→le (length (c ∷ t)) limit e, tt), ap solid (append-nil (c ∷ t))),
      )
      | inr e ↦
          let (out, found, (fits, same)) = chunks_lem fuel limit rest h shorter in
          let head : length (rstrip (take at (c ∷ t))) ≤ limit =
            omega (arith, length-rstrip-le (take at (c ∷ t)), length-take-le at (c ∷ t)) in
          let whole = joined at (c ∷ t) out (same ∙ solid-lstrip_newlines (drop at (c ∷ t))) in
          (rstrip (take at (c ∷ t)) ∷ out, rw e (rw found refl), ((head, fits), whole))
    ]

-- For a positive limit split_telegram_message comes to an end, every part fits the limit, and the
-- parts together are the message but for white space.
pub split_telegram_message_lem :
    (limit : ℕ) (t : Text)
    → 0 < limit
    → (out : List Text) × (split_telegram_message limit t ≡ some out) × IsDivided limit t out
unfolding split_telegram_message
split_telegram_message_lem limit t h = elim (Bool-cases (leb (length t) limit)) [
  | inl e ↦ (t ∷ [], rw e refl, ((leb→le (length t) limit e, tt), ap solid (append-nil t)))
  | inr e ↦
      let (out, found, divided) = chunks_lem (suc (length t)) limit t h (omega arith) in
      (out, rw e found, divided)
]
