-- ===== src/World/Effects.antt =====
-- Actions on a state that may raise. The state comes back beside the exception too.
use merge_mate.Base.{String, ◌≡◌, refl, ap, ◌∙◌, Bool, true, false, if◌then◌else◌}

-- The classes of exceptions that the code tells apart. `runtime_error` is RuntimeError; every other
-- class here is no subclass of it. `cancelled_error` is asyncio.CancelledError, which is no
-- Exception; `other` is any Exception of third-party code.
pub data Kind : Type 0 where
  run_not_found prompt_submission stage_execution parallel_worker job_queue worker_stopped : Kind
  integrity_error assertion_error value_error runtime_error cancelled_error other : Kind

pub record Error : Type 0 where
  pub kind : Kind
  pub text : String

pub data Outcome {ℓ} (A : Type ℓ) : Type ℓ where
  ok : A → Outcome A
  raised : Error → Outcome A

abbrev pub Exec {ℓ} : Type ℓ → Type ℓ → Type ℓ
Exec S A = S → Outcome A × S

abbrev pub is_runtime_error : Kind → Bool
is_runtime_error runtime_error = true
is_runtime_error _ = false

-- `except Exception`
abbrev pub is_exception : Kind → Bool
is_exception cancelled_error = false
is_exception _ = true

abbrev pub is_prompt_submission : Kind → Bool
is_prompt_submission prompt_submission = true
is_prompt_submission _ = false

abbrev pub is_cancelled_error : Kind → Bool
is_cancelled_error cancelled_error = true
is_cancelled_error _ = false

module _ {ℓ} {S A : Type ℓ} where
  abbrev pub pure : A → Exec S A
  pure a s = (ok a, s)

  abbrev pub raise : Kind → String → Exec S A
  raise k text s = (raised (record { kind = k; text = text }), s)

  abbrev pub rethrow : Error → Exec S A
  rethrow e s = (raised e, s)

  abbrev pub gets : (S → A) → Exec S A
  gets f s = (ok (f s), s)

  abbrev pub handle : (Kind → Bool) → (Error → Exec S A) → Outcome A → Exec S A
  handle caught handler (ok a) s = (ok a, s)
  handle caught handler (raised e) s = if caught e.kind then handler e s else (raised e, s)

  -- `try: body` / `except …: handler`
  abbrev pub try_except : (Kind → Bool) → Exec S A → (Error → Exec S A) → Exec S A
  try_except caught body handler s = let (r, s') = body s in handle caught handler r s'

module _ {ℓ} {S A B : Type ℓ} where
  abbrev pub continue : Outcome A → (A → Exec S B) → Exec S B
  continue (ok a) f s = f a s
  continue (raised e) f s = (raised e, s)

  infixl 5 ◌>>=◌ ◌>>◌
  abbrev pub ◌>>=◌ : Exec S A → (A → Exec S B) → Exec S B
  ◌>>=◌ m f s = let (r, s') = m s in continue r f s'

  abbrev pub ◌>>◌ : Exec S A → Exec S B → Exec S B
  m >> n = m >>= λ _. n

  -- The last case of a `try` in which the body's value goes on: `else` after `except`.
  abbrev pub try_else : (Kind → Bool) → Exec S A → (Error → Exec S B) → (A → Exec S B) → Exec S B
  try_else caught body handler rest s =
      let (r, s') = body s in
      elim r [
        | ok a ↦ rest a s'
        | raised e ↦ if caught e.kind then handler e s' else (raised e, s')
      ]

-- The value that comes back, with the state beside it, has the property; an exception has none.
module _ {ℓ κ} {S A : Type ℓ} where
  abbrev pub Ensures : (A → S → Type κ) → Outcome A × S → Type κ
  Ensures Q (ok a, s) = Q a s
  Ensures Q (raised e, s) = Unit

module _ {ℓ κ μ} {S A B : Type ℓ} (R : A → S → Type κ) (Q : B → S → Type μ) (f : A → Exec S B)
    (next : (a : A) (s : S) → R a s → Ensures Q (f a s)) where
  continue-Ensures : (r : Outcome A) (s : S) → Ensures R (r, s) → Ensures Q (continue r f s)
  continue-Ensures (ok a) s h = next a s h
  continue-Ensures (raised e) s h = tt

  pub bind-Ensures : (m : Exec S A) (s : S) → Ensures R (m s) → Ensures Q ((m >>= f) s)
  bind-Ensures m s h = continue-Ensures (m s).0 (m s).1 h

-- The same for an action of which nothing is known.
module _ {ℓ μ} {S A B : Type ℓ} (Q : B → S → Type μ) (f : A → Exec S B)
    (next : (a : A) (s : S) → Ensures Q (f a s)) where
  any : (r : Outcome A) (s : S) → Ensures (λ (_ : A) (_ : S). Unit {0}) (r, s)
  any (ok a) s = tt
  any (raised e) s = tt

  pub after-Ensures : (m : Exec S A) (s : S) → Ensures Q ((m >>= f) s)
  after-Ensures m s =
      bind-Ensures (λ _ _. Unit {0}) Q f (λ a s' _. next a s') m s (any (m s).0 (m s).1)

module _ {ℓ} {S A B : Type ℓ} where
  pub bind-raised :
      (m : Exec S A) (f : A → Exec S B) (s s' : S) (e : Error)
      → m s ≡ (raised e, s')
      → (m >>= f) s ≡ (raised e, s')
  bind-raised m f s s' e h = ap (λ (p : Outcome A × S). continue p.0 f p.1) h

module _ {ℓ} {S A : Type ℓ} where
  pub try_except-caught :
      (caught : Kind → Bool) (body : Exec S A) (handler : Error → Exec S A) (s s' : S) (e : Error)
      → body s ≡ (raised e, s')
      → caught e.kind ≡ true
      → try_except caught body handler s ≡ handler e s'
  try_except-caught caught body handler s s' e h c =
      ap (λ (p : Outcome A × S). handle caught handler p.0 p.1) h ∙ rw c refl

module _ {ℓ} {S A B : Type ℓ} where
  pub try_else-caught :
      (caught : Kind → Bool) (body : Exec S A) (handler : Error → Exec S B) (rest : A → Exec S B)
      (s s' : S) (e : Error)
      → body s ≡ (raised e, s')
      → caught e.kind ≡ true
      → try_else caught body handler rest s ≡ handler e s'
  try_else-caught caught body handler rest s s' e h c =
      ap
        (λ (p : Outcome A × S). elim p.0 as (λ _. Outcome B × S) [
          | ok a ↦ rest a p.1
          | raised x ↦ if caught x.kind then handler x p.1 else (raised x, p.1)
        ])
        h
      ∙ rw c refl
