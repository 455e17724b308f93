-- ===== src/Application/Delivery.antt =====
-- src/mergemate/application/execution_plan.py: the two execution plans.
pub mod Passes
pub mod Endings
use merge_mate.Base.{
  ℕ, zero, suc, ◌+◌, String, Bool, true, false, ◌&&◌, not, Option, none, some, List, [], ◌∷◌, ◌++◌,
  str_eq, if◌then◌else◌, leb, find, select, text_append,
}
use merge_mate.Domain.Status.{
  RunStatus, RunStage, same, cancelled, completed, execution, stage_value, done,
}
use merge_mate.Domain.Runs.{AgentRun}
use merge_mate.Domain.Workflows.{WorkflowStage, WorkflowDefinition}
use merge_mate.Persistence.RunRepository.{get, save_artifacts, StatusUpdate, update_status, stage}
use merge_mate.World.{
  World, Action, Outcome, ok, raised, assertion_error, stage_execution, pure, raise, gets, continue,
  ◌>>=◌, ◌>>◌, on_runs, append_message,
}
use merge_mate.Application.FinalResult.{build_final_result}
use merge_mate.Application.Handlers.{
  ArtifactsDict, Services, stage_artifacts, persist_artifacts, get_stage_handler,
}
use merge_mate.Domain.Workflows.Plans.{Plan, direct, multi_stage}

pub record ExecutionContext : Type 0 where
  pub run : AgentRun
  pub system_prompt : String
  pub context_text : String

-- `AgentOrchestrator._is_cancelled`
unfoldable pub is_cancelled : String → World → Bool
is_cancelled id w = elim (get id w.runs) [ none ↦ false | some r ↦ same r.status cancelled ]

-- `_check_cancelled` and `_check_after_cancelled`, for the flag of the stage that asks for the check.
unfoldable pub check_cancelled : Bool → String → Action (Option AgentRun)
check_cancelled checks id w = (ok (if checks && is_cancelled id w then get id w.runs else none), w)

-- What the loops of `execute` leave: a run to return, or the artifacts to go on with.
pub data Progress : Type 0 where
  stopped : AgentRun → Progress
  goes_on : ArtifactsDict → Progress

abbrev pub completion : String → StatusUpdate
completion result = record {
  status = completed;
  expected_current_status = none;
  current_stage = stage done;
  result_text = some result;
  error_text = none;
}

pub assert_run : Option AgentRun → Action AgentRun
assert_run none = raise assertion_error ""
assert_run (some r) = pure r

unfoldable pub progress_of : Option AgentRun → ArtifactsDict → Progress
progress_of none a = goes_on a
progress_of (some r) a = stopped r

module _ (s : Services) (agent : String) where
  -- The end that both plans share: the reply, the memory of the success, and the status.
  pub complete_run : AgentRun → String → Action AgentRun
  unfolding assert_run
  complete_run run result = do
    append_message run.chat_id "assistant" result
    s.remember_success run.chat_id run.workflow run.prompt result
    r ← on_runs (λ now. update_status (completion result) now run.run_id)
    assert_run r

  pub direct_result : AgentRun → String → Option AgentRun → Action AgentRun
  unfolding complete_run
  direct_result run result (some r) = pure r
  direct_result run result none = do
    on_runs (λ now.
        save_artifacts
          (record (stage_artifacts (stage_value execution) none) { result_text = some result }) now
          run.run_id)
    complete_run run result

  pub direct_call : ExecutionContext → Option AgentRun → Action AgentRun
  unfolding direct_result
  direct_call e (some r) = pure r
  direct_call e none = do
    result ← s.execute_direct agent e.system_prompt e.context_text
    c ← check_cancelled true e.run.run_id
    direct_result e.run result c

  -- `DirectExecutionPlan.execute`
  unfoldable pub execute_direct_plan : ExecutionContext → Action AgentRun
  unfolding direct_call
  execute_direct_plan e = do c ← check_cancelled true e.run.run_id; direct_call e c

  -- A stage's handler and the check behind it. The text of the exception is shortened: the source
  -- also names the key of the handler.
  pub call_handler :
      WorkflowStage
      → Option (String → ArtifactsDict → Action ArtifactsDict)
      → String
      → ArtifactsDict
      → Action Progress
  call_handler st none id a =
      raise stage_execution (text_append "No handler registered for stage " st.name)
  call_handler st (some handler) id a = do
    a' ← handler agent a
    c ← check_cancelled st.checks_cancellation_after id
    pure (progress_of c a')

  pub unless_cancelled : WorkflowStage → String → ArtifactsDict → Option AgentRun → Action Progress
  unfolding call_handler
  unless_cancelled st id a (some r) = pure (stopped r)
  unless_cancelled st id a none = call_handler st (get_stage_handler s st.handler) id a

  -- One pass of the loop over the core stages.
  unfoldable pub run_stage : WorkflowStage → String → ArtifactsDict → Action Progress
  unfolding unless_cancelled
  run_stage st id a = do
    c ← check_cancelled st.checks_cancellation_before id
    unless_cancelled st id a c

  pub run_rest : (ArtifactsDict → Action Progress) → Progress → Action Progress
  run_rest next (stopped r) = pure (stopped r)
  run_rest next (goes_on a) = next a

  unfoldable pub run_stages : List WorkflowStage → String → ArtifactsDict → Action Progress
  unfolding run_rest
  run_stages [] id a = pure (goes_on a)
  run_stages (st ∷ rest) id a = do p ← run_stage st id a; run_rest (run_stages rest id) p

  pub replan : Option WorkflowStage → String → ArtifactsDict → Action Progress
  unfolding call_handler
  replan none id a = pure (goes_on a)
  replan (some st) id a = call_handler st (get_stage_handler s st.handler) id a

  module _ (max_iterations : ℕ) (core_stages : List WorkflowStage)
      (replan_stage : Option WorkflowStage) where
    -- The review gate after a pass, and the replanning before the next one.
    pub review_gate : ℕ → String → Progress → Action (Bool × Progress)
    unfolding replan
    review_gate iteration id (stopped r) = pure (false, stopped r)
    review_gate iteration id (goes_on a) =
        if not (s.has_high_concerns a.review_text)
        then pure (false, goes_on a)
        else if leb max_iterations iteration
        then pure (false, goes_on a)
        else (do p ← replan replan_stage id a; pure (true, p))

    pub next_iteration : (ArtifactsDict → Action Progress) → Bool × Progress → Action Progress
    next_iteration next (_, stopped r) = pure (stopped r)
    next_iteration next (false, goes_on a) = pure (goes_on a)
    next_iteration next (true, goes_on a) = next a

    -- `for iteration in range(1, max_iterations + 1)`, for the iterations that are left.
    unfoldable pub iterations : ℕ → ℕ → String → ArtifactsDict → Action Progress
    unfolding review_gate next_iteration
    iterations zero iteration id a = pure (goes_on a)
    iterations (suc left) iteration id a = do
      p ← run_stages core_stages id (record a { iteration = iteration })
      g ← review_gate iteration id p
      next_iteration (iterations left (iteration + 1) id) g

abbrev pub is_replanning : WorkflowStage → Bool
is_replanning st = str_eq st.handler "replanning"

-- The plan's text of the run, or the default where it is None or empty.
pub plan_or_default : Option String → String
plan_or_default none = "No approved plan available."
plan_or_default (some t) = if str_eq t "" then "No approved plan available." else t

unfoldable pub initial_artifacts : ExecutionContext → ArtifactsDict
unfolding plan_or_default
initial_artifacts e = record {
  run_id = e.run.run_id;
  run_prompt = e.run.prompt;
  plan_text = plan_or_default e.run.plan_text;
  context_text = e.context_text;
  system_prompt = e.system_prompt;
  iteration = 0;
  design_text = "";
  implementation_text = "";
  test_text = "";
  review_text = "";
  lesson_text = "";
  result_text = "";
  design_document_path = "";
  test_document_path = "";
  review_document_path = "";
  lesson_document_path = "";
  is_direct = false;
}

module _ (s : Services) (strip : String → String) (summary : String → List String → Option String)
    (agent : String) where
  pub deliver : AgentRun → ArtifactsDict → Option AgentRun → Action AgentRun
  deliver run a (some r) = pure r
  deliver run a none = complete_run s agent run (build_final_result strip summary a)

  pub end_of_loop : AgentRun → Progress → Action AgentRun
  unfolding deliver
  end_of_loop run (stopped r) = pure r
  end_of_loop run (goes_on a) = do c ← check_cancelled true run.run_id; deliver run a c

  pub execute_stages : ℕ → Option WorkflowDefinition → ExecutionContext → Action AgentRun
  unfolding end_of_loop
  execute_stages max none e =
      raise stage_execution "MultiStageExecutionPlan requires a workflow_definition."
  execute_stages max (some d) e = do
    p ←
        iterations s agent max (select (λ st. not (is_replanning st)) d.stages)
          (find is_replanning d.stages) max 1 e.run.run_id (initial_artifacts e)
    end_of_loop e.run p

  -- `execute` of the plan that `build_execution_plan` returned.
  unfoldable pub execute_plan : Plan → ExecutionContext → Action AgentRun
  unfolding execute_stages
  execute_plan direct e = execute_direct_plan s agent e
  execute_plan (multi_stage max d) e = execute_stages max d e
