-- ===== src/Application/Delivery/Passes.antt =====
-- What the loops of a plan leave: the cancelled run, or the artifacts to go on with.
use merge_mate.Base.{
  ℕ, zero, suc, ◌+◌, String, ◌≡◌, refl, Bool, true, false, ◌&&◌, ◌||◌, not, Option, none, some,
  List, [], ◌∷◌, Bool-cases, inl, inr, if◌then◌else◌, leb,
}
use merge_mate.Domain.Status.{same, cancelled, completed}
use merge_mate.Domain.Runs.{AgentRun}
use merge_mate.Domain.Workflows.{WorkflowStage}
use merge_mate.Persistence.RunRepository.{get}
use merge_mate.World.{World, Action, pure, Ensures, bind-Ensures, after-Ensures}
use merge_mate.Application.Delivery.{
  check_cancelled, is_cancelled, Progress, stopped, goes_on, call_handler, run_stage, run_stages,
  run_rest, unless_cancelled, iterations, review_gate, replan, next_iteration, progress_of,
}
use merge_mate.Application.Handlers.{ArtifactsDict, Services, get_stage_handler}

-- A run as it stands in the table, cancelled or completed.
abbrev pub IsEnded : String → AgentRun → World → Type 0
IsEnded id r w =
    (get id w.runs ≡ some r) × (same r.status cancelled || same r.status completed ≡ true)

abbrev pub IsStop : String → Option AgentRun → World → Type 0
IsStop id none w = Unit
IsStop id (some r) w = IsEnded id r w

abbrev pub IsPassed : String → Progress → World → Type 0
IsPassed id (stopped r) w = IsEnded id r w
IsPassed id (goes_on a) w = Unit

check_of :
    (checks : Bool) (id : String) (w : World) (x : Option AgentRun)
    → get id w.runs ≡ x
    → IsStop id
        (if checks && elim x [ none ↦ false | some r ↦ same r.status cancelled ] then x else none)
        w
check_of false id w x e = tt
check_of true id w none e = tt
check_of true id w (some r) e = elim (Bool-cases (same r.status cancelled)) [
  | inl y ↦ rw y (e, rw y refl)
  | inr n ↦ rw n tt
]

pub check_cancelled-IsStop :
    (checks : Bool) (id : String) (w : World) → Ensures (IsStop id) (check_cancelled checks id w)
unfolding check_cancelled is_cancelled
check_cancelled-IsStop checks id w = check_of checks id w (get id w.runs) refl

module _ (s : Services) (agent : String) where
  progress_of-IsPassed :
      (id : String) (a : ArtifactsDict) (c : Option AgentRun) (w : World)
      → IsStop id c w
      → Ensures (IsPassed id) (pure (progress_of c a) w)
  unfolding progress_of
  progress_of-IsPassed id a none w h = tt
  progress_of-IsPassed id a (some r) w h = h

  call_handler-IsPassed :
      (st : WorkflowStage) (handler : Option (String → ArtifactsDict → Action ArtifactsDict))
      (id : String) (a : ArtifactsDict) (w : World)
      → Ensures (IsPassed id) (call_handler s agent st handler id a w)
  unfolding call_handler
  call_handler-IsPassed st none id a w = tt
  call_handler-IsPassed st (some handler) id a w =
      after-Ensures (IsPassed id) _
        (λ a' w1.
          bind-Ensures (IsStop id) (IsPassed id) (λ c. pure (progress_of c a'))
            (progress_of-IsPassed id a') (check_cancelled st.checks_cancellation_after id) w1
            (check_cancelled-IsStop st.checks_cancellation_after id w1))
        (handler agent a) w

  unless_cancelled-IsPassed :
      (st : WorkflowStage) (id : String) (a : ArtifactsDict) (c : Option AgentRun) (w : World)
      → IsStop id c w
      → Ensures (IsPassed id) (unless_cancelled s agent st id a c w)
  unfolding unless_cancelled
  unless_cancelled-IsPassed st id a (some r) w h = h
  unless_cancelled-IsPassed st id a none w h =
      call_handler-IsPassed st (get_stage_handler s st.handler) id a w

  run_stage-IsPassed :
      (st : WorkflowStage) (id : String) (a : ArtifactsDict) (w : World)
      → Ensures (IsPassed id) (run_stage s agent st id a w)
  unfolding run_stage
  run_stage-IsPassed st id a w =
      bind-Ensures (IsStop id) (IsPassed id) (unless_cancelled s agent st id a)
        (unless_cancelled-IsPassed st id a) (check_cancelled st.checks_cancellation_before id) w
        (check_cancelled-IsStop st.checks_cancellation_before id w)

  rest-IsPassed :
      (id : String) (next : ArtifactsDict → Action Progress)
      (holds : (a : ArtifactsDict) (w : World) → Ensures (IsPassed id) (next a w)) (p : Progress)
      (w : World)
      → IsPassed id p w
      → Ensures (IsPassed id) (run_rest s agent next p w)
  unfolding run_rest
  rest-IsPassed id next holds (stopped r) w h = h
  rest-IsPassed id next holds (goes_on a) w h = holds a w

  run_stages-IsPassed :
      (stages : List WorkflowStage) (id : String) (a : ArtifactsDict) (w : World)
      → Ensures (IsPassed id) (run_stages s agent stages id a w)
  unfolding run_stages run_rest
  run_stages-IsPassed [] id a w = tt
  run_stages-IsPassed (st ∷ rest) id a w =
      bind-Ensures (IsPassed id) (IsPassed id) _
        (rest-IsPassed id (run_stages s agent rest id) (run_stages-IsPassed rest id))
        (run_stage s agent st id a) w (run_stage-IsPassed st id a w)

  replan-IsPassed :
      (st : Option WorkflowStage) (id : String) (a : ArtifactsDict) (w : World)
      → Ensures (IsPassed id) (replan s agent st id a w)
  unfolding replan
  replan-IsPassed none id a w = tt
  replan-IsPassed (some st) id a w =
      call_handler-IsPassed st (get_stage_handler s st.handler) id a w

  module _ (max : ℕ) (core : List WorkflowStage) (between : Option WorkflowStage) where
    review_gate-IsPassed :
        (n : ℕ) (id : String) (p : Progress) (w : World)
        → IsPassed id p w
        → Ensures
            (λ (g : Bool × Progress). IsPassed id g.1)
            (review_gate s agent max core between n id p w)
    unfolding review_gate
    review_gate-IsPassed n id (stopped r) w h = h
    review_gate-IsPassed n id (goes_on a) w h =
        elim (Bool-cases (not (s.has_high_concerns a.review_text))) [
          | inl y ↦ rw y tt
          | inr n1 ↦ rw n1 (elim (Bool-cases (leb max n)) [
            | inl y ↦ rw y tt
            | inr n2 ↦ rw n2 (
                bind-Ensures (IsPassed id) (λ (g : Bool × Progress). IsPassed id g.1)
                  (λ p. pure (true, p)) (λ p w1 k. k) (replan s agent between id a) w
                  (replan-IsPassed between id a w))
          ])
        ]

    next_iteration-IsPassed :
        (id : String) (next : ArtifactsDict → Action Progress)
        (holds : (a : ArtifactsDict) (w : World) → Ensures (IsPassed id) (next a w))
        (g : Bool × Progress) (w : World)
        → IsPassed id g.1 w
        → Ensures (IsPassed id) (next_iteration s agent max core between next g w)
    unfolding next_iteration
    next_iteration-IsPassed id next holds (b, stopped r) w h = h
    next_iteration-IsPassed id next holds (false, goes_on a) w h = tt
    next_iteration-IsPassed id next holds (true, goes_on a) w h = holds a w

    pub iterations-IsPassed :
        (left n : ℕ) (id : String) (a : ArtifactsDict) (w : World)
        → Ensures (IsPassed id) (iterations s agent max core between left n id a w)
    unfolding iterations next_iteration
    iterations-IsPassed zero n id a w = tt
    iterations-IsPassed (suc left) n id a w =
        bind-Ensures (IsPassed id) (IsPassed id) _
          (λ p w1 h.
            bind-Ensures (λ (g : Bool × Progress). IsPassed id g.1) (IsPassed id)
              (next_iteration s agent max core between
                (iterations s agent max core between left (n + 1) id))
              (next_iteration-IsPassed id (iterations s agent max core between left (n + 1) id)
                (iterations-IsPassed left (n + 1) id))
              (review_gate s agent max core between n id p) w1 (review_gate-IsPassed n id p w1 h))
          (run_stages s agent core id (record a { iteration = n })) w
          (run_stages-IsPassed core id (record a { iteration = n }) w)
