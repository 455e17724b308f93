-- ===== src/Application/Validation.antt =====
-- src/mergemate/domain/workflows/validation.py: the hooks that inspect a stage's artifacts, by the key of
-- the stage's handler. A hook is awaited, so it is an arbitrary action that gives a Boolean or raises.
use merge_mate.Base.{
  String, Bool, true, false, List, [], ◌∷◌, ◌++◌, ◌≡◌, refl, str_eq, eq_refl, if◌then◌else◌,
  Bool-cases, inl, inr,
}
use merge_mate.World.Effects.{Exec, Outcome, ok, raised, pure, continue, ◌>>=◌}

abbrev pub Hook : Type 0 → Type 0 → Type 0
Hook S A = String → A → Exec S Bool

-- `_VALIDATION_HOOKS`
abbrev pub Hooks : Type 0 → Type 0 → Type 0
Hooks S A = List (String × List (Hook S A))

-- What follows a hook: the others, unless it gave false.
abbrev pub unless_failed : {S : Type 0} → Exec S Bool → Bool → Exec S Bool
unless_failed rest good = if good then rest else pure false

module _ {S A : Type 0} where
  -- `register_validation_hook`: `setdefault(key, []).append(hook)`
  unfoldable pub register_validation_hook : String → Hook S A → Hooks S A → Hooks S A
  register_validation_hook key hook [] = (key, hook ∷ []) ∷ []
  register_validation_hook key hook ((k, hs) ∷ rest) =
      if str_eq k key
      then (k, hs ++ hook ∷ []) ∷ rest
      else (k, hs) ∷ register_validation_hook key hook rest

  unfoldable pub get_validation_hooks : String → Hooks S A → List (Hook S A)
  get_validation_hooks key [] = []
  get_validation_hooks key ((k, hs) ∷ rest) =
      if str_eq k key then hs else get_validation_hooks key rest

  -- The loop of `run_validation_hooks`.
  unfoldable pub run_hooks : List (Hook S A) → String → A → Exec S Bool
  run_hooks [] stage artifacts = pure true
  run_hooks (h ∷ hs) stage artifacts =
      h stage artifacts >>= unless_failed (run_hooks hs stage artifacts)

  unfoldable pub run_validation_hooks : String → Hooks S A → String → A → Exec S Bool
  unfolding get_validation_hooks
  run_validation_hooks key hooks stage artifacts =
      run_hooks (get_validation_hooks key hooks) stage artifacts

  module _ (stage : String) (artifacts : A) (hook : Hook S A) where
    unless_failed-append :
        (rest next : Exec S Bool)
        → ((s : S) → next s ≡ (rest >>= unless_failed (hook stage artifacts)) s)
        → (o : Outcome Bool) (s : S)
        → continue o (unless_failed next) s ≡ (
            let (r, s') = continue o (unless_failed rest) s in
            continue r (unless_failed (hook stage artifacts)) s')
    unless_failed-append rest next same (ok true) s = same s
    unless_failed-append rest next same (ok false) s = refl
    unless_failed-append rest next same (raised e) s = refl

    last : (o : Outcome Bool) (s : S) → continue o (unless_failed (pure true)) s ≡ (o, s)
    last (ok true) s = refl
    last (ok false) s = refl
    last (raised e) s = refl

    run_hooks-append :
        (hs : List (Hook S A)) (s : S)
        → run_hooks (hs ++ hook ∷ []) stage artifacts s
          ≡ (run_hooks hs stage artifacts >>= unless_failed (hook stage artifacts)) s
    unfolding run_hooks
    run_hooks-append [] s = last (hook stage artifacts s).0 (hook stage artifacts s).1
    run_hooks-append (h ∷ hs) s =
        unless_failed-append (run_hooks hs stage artifacts)
          (run_hooks (hs ++ hook ∷ []) stage artifacts) (run_hooks-append hs)
          (h stage artifacts s).0 (h stage artifacts s).1

  register-get :
      (key : String) (hook : Hook S A) (hooks : Hooks S A)
      → get_validation_hooks key (register_validation_hook key hook hooks)
        ≡ get_validation_hooks key hooks ++ hook ∷ []
  unfolding register_validation_hook get_validation_hooks
  register-get key hook [] = rw (eq_refl key) refl
  register-get key hook ((k, hs) ∷ rest) = elim (Bool-cases (str_eq k key)) [
    | inl e ↦ rw e (rw e refl)
    | inr e ↦ rw e (rw e (register-get key hook rest))
  ]

  -- Running the hooks of a handler after one more was registered for it is running the hooks of
  -- before and, unless one of them failed or raised, the new one.
  pub run_validation_hooks-register :
      (key : String) (hook : Hook S A) (hooks : Hooks S A) (stage : String) (artifacts : A) (s : S)
      → run_validation_hooks key (register_validation_hook key hook hooks) stage artifacts s
        ≡ (run_validation_hooks key hooks stage artifacts >>= unless_failed (hook stage artifacts))
            s
  unfolding run_validation_hooks
  run_validation_hooks-register key hook hooks stage artifacts s =
      rw (register-get key hook hooks)
        (run_hooks-append stage artifacts hook (get_validation_hooks key hooks) s)
