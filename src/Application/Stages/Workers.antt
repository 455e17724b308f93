-- ===== src/Application/Stages/Workers.antt =====
-- Which agent the workers of a parallel stage call, and when such a stage is answered.
use merge_mate.Base.{
  String, Bool, true, false, not, Option, none, some, List, [], ◌∷◌, ◌≡◌, refl, if◌then◌else◌, map,
  select, Bool-cases, inl, inr,
}
use merge_mate.Config.{AppConfig, RoleConfig, CombineStrategy, role_for}
use merge_mate.Config.Choices.{resolve-role}
use merge_mate.World.Effects.{Exec, Outcome, ok, raised}
use merge_mate.Application.Stages.{
  or_worker, is_error, outcome_of_stage, worker_name, run_worker, gather, run_parallel_stage,
}

-- Some result is no exception.
unfoldable pub some_result : List (Outcome String) → Bool
some_result [] = false
some_result (r ∷ rs) = if is_error r then some_result rs else true

abbrev pub is_ok : Outcome String → Bool
is_ok (ok t) = true
is_ok (raised e) = false

outcome-ok :
    (strategy : CombineStrategy) (names : List String) (all rs : List (Outcome String))
    → is_ok (outcome_of_stage strategy names all (select (λ r. not (is_error r)) rs))
      ≡ some_result rs
unfolding select some_result
outcome-ok strategy names all [] = refl
outcome-ok strategy names all (r ∷ rs) = elim (Bool-cases (is_error r)) [
  | inl e ↦ rw e (outcome-ok strategy names all rs)
  | inr e ↦ rw e refl
]

module _ {S : Type 0} (c : AppConfig) (generate : String → String → String → Exec S String)
    (workflow system user : String) where
  -- The results of `_run_parallel_stage`'s workers.
  abbrev pub results : RoleConfig → Option String → S → List (Outcome String)
  results role preferred s =
      (gather c generate (run_worker c generate workflow system user preferred)
        (map worker_name role.workers) s).0

  run_worker-role :
      (preferred : Option String) (agent worker : String)
      → role_for workflow none c.roles ≡ some agent
      → run_worker c generate workflow system user preferred worker ≡ generate agent system user
  unfolding run_worker
  run_worker-role preferred agent worker h =
      rw (resolve-role c workflow (or_worker preferred worker) agent h, run_worker) refl

  -- The same call, as often as there are workers.
  unfoldable pub repeat_call : Exec S String → List String → S → List (Outcome String) × S
  repeat_call call [] s = ([], s)
  repeat_call call (n ∷ ns) s =
      let (r, s') = call s in let (rs, s'') = repeat_call call ns s' in (r ∷ rs, s'')

  -- If a role serves the workflow, the workers of a parallel stage make the same call, to the
  -- agent with the name of that role, one after the other.
  pub gather-role :
      (preferred : Option String) (agent : String) (names : List String) (s : S)
      → role_for workflow none c.roles ≡ some agent
      → gather c generate (run_worker c generate workflow system user preferred) names s
        ≡ repeat_call (generate agent system user) names s
  unfolding gather repeat_call
  gather-role preferred agent [] s h = refl
  gather-role preferred agent (n ∷ ns) s h = rw (run_worker-role preferred agent n h) (
      let later = gather-role preferred agent ns (generate agent system user s).1 h in
      rw later refl)

  -- A parallel stage returns a text exactly if the result of some worker is no Exception, whatever
  -- the strategy; otherwise it raises.
  pub run_parallel_stage-ok :
      (role : RoleConfig) (preferred : Option String) (s : S)
      → is_ok (run_parallel_stage c generate workflow system user role preferred s).0
        ≡ some_result (results role preferred s)
  unfolding run_parallel_stage
  run_parallel_stage-ok role preferred s =
      outcome-ok role.combine_strategy (map worker_name role.workers) (results role preferred s)
        (results role preferred s)
