-- ===== src/Application/Delivery/Endings.antt =====
-- What the execution plans return, whatever their services do and whatever other tasks do meanwhile.
use merge_mate.Base.{
  String, refl, true, not, Option, none, some, List, Option-cases, inl, inr, find, select,
}
use merge_mate.Domain.Runs.{AgentRun}
use merge_mate.Domain.Workflows.Plans.{Plan, direct, multi_stage}
use merge_mate.Persistence.RunRepository.{update_status}
use merge_mate.Persistence.RunRepository.Writes.{update_status-get}
use merge_mate.World.{World, ◌>>=◌, on_runs, append_message, Ensures, bind-Ensures, after-Ensures}
use merge_mate.Application.Delivery.{
  check_cancelled, Progress, stopped, goes_on, complete_run, completion, assert_run, execute_plan,
  ExecutionContext, execute_direct_plan, direct_call, direct_result, iterations, end_of_loop,
  deliver, execute_stages, is_replanning, initial_artifacts,
}
use merge_mate.Application.Handlers.{ArtifactsDict, Services}
use merge_mate.Application.Delivery.Passes.{
  IsEnded, IsStop, IsPassed, check_cancelled-IsStop, iterations-IsPassed,
}

complete_run-IsEnded :
    (s : Services) (agent : String) (run : AgentRun) (result : String) (w : World)
    → Ensures (IsEnded run.run_id) (complete_run s agent run result w)
unfolding complete_run on_runs assert_run
complete_run-IsEnded s agent run result w =
    let u = completion result in
    let last : (w2 : World)
        → Ensures (IsEnded run.run_id)
            ((on_runs (λ now. update_status u now run.run_id) >>= assert_run) w2) =
      λ w2. elim (Option-cases (update_status u w2.clock run.run_id w2.runs).0) [
        | inl e ↦ rw e tt
        | inr (r, e) ↦ rw e (
            let (h, g) = update_status-get u w2.clock run.run_id w2.runs r refl e in (h, rw g refl))
      ] in
    after-Ensures (IsEnded run.run_id) _
      (λ _ w1.
        after-Ensures (IsEnded run.run_id) _ (λ _ w2. last w2)
          (s.remember_success run.chat_id run.workflow run.prompt result) w1)
      (append_message run.chat_id "assistant" result) w

module _ (s : Services) (agent : String) where
  direct_result-IsEnded :
      (run : AgentRun) (result : String) (c : Option AgentRun) (w : World)
      → IsStop run.run_id c w
      → Ensures (IsEnded run.run_id) (direct_result s agent run result c w)
  unfolding direct_result on_runs
  direct_result-IsEnded run result (some r) w h = h
  direct_result-IsEnded run result none w h = complete_run-IsEnded s agent run result _

  direct_call-IsEnded :
      (e : ExecutionContext) (c : Option AgentRun) (w : World)
      → IsStop e.run.run_id c w
      → Ensures (IsEnded e.run.run_id) (direct_call s agent e c w)
  unfolding direct_call
  direct_call-IsEnded e (some r) w h = h
  direct_call-IsEnded e none w h =
      after-Ensures (IsEnded e.run.run_id) _
        (λ result w1.
          bind-Ensures (IsStop e.run.run_id) (IsEnded e.run.run_id)
            (direct_result s agent e.run result) (direct_result-IsEnded e.run result)
            (check_cancelled true e.run.run_id) w1 (check_cancelled-IsStop true e.run.run_id w1))
        (s.execute_direct agent e.system_prompt e.context_text) w

module _ (s : Services) (strip : String → String) (summary : String → List String → Option String)
    (agent : String) where
  deliver-IsEnded :
      (run : AgentRun) (a : ArtifactsDict) (c : Option AgentRun) (w : World)
      → IsStop run.run_id c w
      → Ensures (IsEnded run.run_id) (deliver s strip summary agent run a c w)
  unfolding deliver
  deliver-IsEnded run a (some r) w h = h
  deliver-IsEnded run a none w h = complete_run-IsEnded s agent run _ w

  end_of_loop-IsEnded :
      (run : AgentRun) (p : Progress) (w : World)
      → IsPassed run.run_id p w
      → Ensures (IsEnded run.run_id) (end_of_loop s strip summary agent run p w)
  unfolding end_of_loop
  end_of_loop-IsEnded run (stopped r) w h = h
  end_of_loop-IsEnded run (goes_on a) w h =
      bind-Ensures (IsStop run.run_id) (IsEnded run.run_id) (deliver s strip summary agent run a)
        (deliver-IsEnded run a) (check_cancelled true run.run_id) w
        (check_cancelled-IsStop true run.run_id w)

  -- If the execution of a plan returns a run, it is the run as the table then holds it, and it is
  -- cancelled or completed, whatever the services do and whatever other tasks did to the table
  -- meanwhile.
  pub execute_plan-IsEnded :
      (plan : Plan) (e : ExecutionContext) (w : World)
      → Ensures (IsEnded e.run.run_id) (execute_plan s strip summary agent plan e w)
  unfolding execute_plan execute_direct_plan execute_stages
  execute_plan-IsEnded direct e w =
      bind-Ensures (IsStop e.run.run_id) (IsEnded e.run.run_id) (direct_call s agent e)
        (direct_call-IsEnded s agent e) (check_cancelled true e.run.run_id) w
        (check_cancelled-IsStop true e.run.run_id w)
  execute_plan-IsEnded (multi_stage max none) e w = tt
  execute_plan-IsEnded (multi_stage max (some d)) e w =
      let core = select (λ st. not (is_replanning st)) d.stages in
      let between = find is_replanning d.stages in
      bind-Ensures (IsPassed e.run.run_id) (IsEnded e.run.run_id)
        (end_of_loop s strip summary agent e.run) (end_of_loop-IsEnded e.run)
        (iterations s agent max core between max 1 e.run.run_id (initial_artifacts e)) w
        (iterations-IsPassed s agent max core between max 1 e.run.run_id (initial_artifacts e) w)
