-- ===== src/Application/Orchestrator.antt =====
-- src/mergemate/application/orchestrator.py, `AgentOrchestrator.process_run`.
pub mod Starts
use merge_mate.Base.{
  ℕ, String, Bool, true, false, ◌&&◌, not, Option, none, some, List, [], ◌∷◌, str_eq, if◌then◌else◌,
  text_append,
}
use merge_mate.Domain.Status.{RunStatus, same, is_skipped, queued, running, retrieve_context}
use merge_mate.Domain.Runs.{AgentRun, ChatId, Decision}
use merge_mate.Domain.Workflows.{Registry, WorkflowStage}
use merge_mate.Domain.Workflows.Plans.{Plan, direct, multi_stage, build_execution_plan}
use merge_mate.Persistence.RunRepository.{get, StatusUpdate, try_update_status, stage}
use merge_mate.World.{
  World, Action, Outcome, ok, raised, run_not_found, assertion_error, stage_execution, pure, raise,
  gets, continue, ◌>>=◌, ◌>>◌, on_runs,
}
use merge_mate.Application.Handlers.{Services}
use merge_mate.Application.Delivery.{ExecutionContext, execute_plan}

-- What the orchestrator is given: the settings, the registered workflows, and the services, whose
-- answers of the types `L` and `K` it only passes on.
pub record Dependencies (L K : Type 0) : Type 0 where
  pub repo_name : Option String
  pub registry : Registry
  pub max_iterations : ℕ
  pub load_recent_messages : ChatId → Action (List (String × String))
  pub load_grouped_learnings : ChatId → String → Action L
  pub load_repo_knowledge : ChatId → Option String → Action K
  pub render : String → List (String × String) → L → String → K → Action (String × String)
  pub soul_prompt : String → Option String
  pub build_runtime_tool_context : String → String → Action String
  pub services : Services
  pub strip : String → String
  pub progress_summary : String → List String → Option String

-- The messages, as pairs of role and content, without the last one if it is the prompt itself.
unfoldable pub without_prompt : String → List (String × String) → List (String × String)
without_prompt prompt [] = []
without_prompt prompt ((role, content) ∷ []) =
    if str_eq role "user" && str_eq content prompt then [] else (role, content) ∷ []
without_prompt prompt (m ∷ n ∷ rest) = m ∷ without_prompt prompt (n ∷ rest)

-- `_inject_soul_to_prompt`
pub with_soul : String → Option String → String
with_soul prompt none = prompt
with_soul prompt (some soul) = text_append prompt (text_append "\n\n" soul)

pub uses_tools : List WorkflowStage → Bool
uses_tools [] = false
uses_tools (st ∷ rest) = if st.uses_tool_context then true else uses_tools rest

-- `requires_tool_context` of a plan.
pub requires_tool_context : Plan → Action Bool
unfolding uses_tools
requires_tool_context direct = pure true
requires_tool_context (multi_stage max none) =
    raise stage_execution "MultiStageExecutionPlan requires a workflow_definition."
requires_tool_context (multi_stage max (some d)) = pure (uses_tools d.stages)

abbrev pub start : StatusUpdate
start = record {
  status = running;
  expected_current_status = some queued;
  current_stage = stage retrieve_context;
  result_text = none;
  error_text = none;
}

module _ {L K : Type 0} (deps : Dependencies L K) where
  pub tool_context : AgentRun → String → Bool → Action String
  tool_context run context false = pure context
  tool_context run context true = do
    tools ← deps.build_runtime_tool_context run.run_id run.agent_name
    pure (
        if str_eq tools ""
        then context
        else deps.strip (text_append context (text_append "\n\nRuntime tool context:\n" tools)))

  -- What follows the start of a run.
  unfoldable pub deliver_run : AgentRun → Action AgentRun
  unfolding with_soul requires_tool_context tool_context
  deliver_run run = do
    recent ← deps.load_recent_messages run.chat_id
    learned ← deps.load_grouped_learnings run.chat_id run.workflow
    knowledge ←
        deps.load_repo_knowledge run.chat_id
          (elim run.repo_name [ none ↦ deps.repo_name | some name ↦ some name ])
    prompts ←
        deps.render run.workflow (without_prompt run.prompt recent) learned run.prompt knowledge
    plan ← (λ (w : World). (build_execution_plan deps.registry deps.max_iterations run.workflow, w))
    tools ← requires_tool_context plan
    context ← tool_context run prompts.1 tools
    execute_plan deps.services deps.strip deps.progress_summary run.agent_name plan (record {
      run = run;
      system_prompt = with_soul prompts.0 (deps.soul_prompt run.agent_name);
      context_text = context;
    })

  pub started : Bool → Option AgentRun → Action AgentRun
  started transitioned none = raise assertion_error ""
  started transitioned (some run) = if transitioned then deliver_run run else pure run

  pub process_found : String → Option AgentRun → Action AgentRun
  unfolding started
  process_found id none = raise run_not_found (text_append "Run " (text_append id " was not found"))
  process_found id (some run) =
      if is_skipped run.status
      then pure run
      else if not run.approved
      then pure run
      else if not (same run.status queued)
      then pure run
      else (do d ← on_runs (λ now. try_update_status start now id); started d.transitioned d.run)

  -- `AgentOrchestrator.process_run`
  unfoldable pub process_run : String → Action AgentRun
  unfolding process_found
  process_run id = do run ← gets (λ (w : World). get id w.runs); process_found id run
