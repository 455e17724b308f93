-- ===== src/Application/Stages.antt =====
-- src/mergemate/application/services/workflow_service.py: which agent a stage's prompt goes to, and the
-- workers of a role that run in parallel. The call of the gateway is a parameter: an arbitrary action
-- on the state that all calls share, so it may also bring back what other tasks did meanwhile. The
-- calls of `asyncio.gather` are run in the order of the workers.
pub mod Workers
pub mod Prompts
pub mod Lessons
use merge_mate.Base.{
  ℕ, String, Bool, true, false, not, ◌&&◌, Option, none, some, List, [], ◌∷◌, ◌++◌, map, str_eq,
  if◌then◌else◌, ltb, length, text_append, select,
}
use merge_mate.Config.{
  AppConfig, AgentConfig, RoleConfig, WorkerConfig, ParallelMode, single, parallel, CombineStrategy,
  sectioned, first_success, get_entry, workflows_of, resolve_agent_name_for_workflow,
}
use merge_mate.Base.Texts.{unique, join, sorted}
use merge_mate.World.Effects.{
  Kind, Exec, Outcome, ok, raised, Error, value_error, parallel_worker, is_exception, pure, raise,
  ◌>>=◌,
}

unfoldable pub role_workflows : List (String × RoleConfig) → List String
role_workflows [] = []
role_workflows ((name, r) ∷ rest) = r.workflow ∷ role_workflows rest

-- `_format_workflow_list`
unfoldable pub format_workflow_list : List String → String
format_workflow_list [] = "none configured"
format_workflow_list (w ∷ ws) = join ", " (sorted (w ∷ ws))

-- The text of the ConfigWorkflowNotFoundError.
unfoldable pub not_found_text : AppConfig → String → String
unfolding role_workflows format_workflow_list
not_found_text c workflow = text_append "No configured agent found for workflow " (
    text_append workflow (
      text_append ". Available workflows: "
        (format_workflow_list (unique (role_workflows c.roles ++ workflows_of c.agents)))))

-- `preferred or worker`
abbrev pub or_worker : Option String → String → Option String
or_worker none worker = some worker
or_worker (some p) worker = if str_eq p "" then some worker else some p

-- `agent_name or None`
abbrev pub or_none : String → Option String
or_none a = if str_eq a "" then none else some a

-- `isinstance(result, Exception)`; a CancelledError among the results is none.
abbrev pub is_error : Outcome String → Bool
is_error (ok t) = false
is_error (raised e) = is_exception e.kind

-- The text of a result in the output, `str` of an exception.
abbrev pub result_text : Outcome String → String
result_text (ok t) = t
result_text (raised e) = e.text

abbrev section : String → Outcome String → String
section name r =
    text_append "## "
      (text_append name (text_append (if is_error r then " (FAILED)\n" else "\n") (result_text r)))

unfoldable pub sections : List String → List (Outcome String) → List String
sections [] rs = []
sections (n ∷ ns) [] = []
sections (n ∷ ns) (r ∷ rs) = section n r ∷ sections ns rs

abbrev combined : CombineStrategy → List String → List (Outcome String) → Outcome String → String
combined first_success names rs first = result_text first
combined sectioned names rs first = join "\n\n" (sections names rs)

-- The end of `_run_parallel_stage`; the last list is that of the results that are no exceptions.
abbrev pub outcome_of_stage :
    CombineStrategy → List String → List (Outcome String) → List (Outcome String) → Outcome String
outcome_of_stage strategy names rs [] = raised (record {
  kind = parallel_worker;
  text = text_append "All parallel workers failed: " (join "; " (map result_text rs));
})
outcome_of_stage strategy names rs (r ∷ others) = ok (combined strategy names rs r)

abbrev pub worker_name : WorkerConfig → String
worker_name w = w.name

module _ {S : Type 0} (c : AppConfig) (generate : String → String → String → Exec S String) where
  unfoldable pub run_worker : String → String → String → Option String → String → Exec S String
  run_worker workflow system user preferred worker =
      elim (resolve_agent_name_for_workflow c workflow (or_worker preferred worker)) [
        | none ↦ raise value_error (not_found_text c workflow)
        | some agent ↦ generate agent system user
      ]

  -- `asyncio.gather(…, return_exceptions=True)`
  unfoldable pub gather : (String → Exec S String) → List String → S → List (Outcome String) × S
  gather run [] s = ([], s)
  gather run (n ∷ ns) s = let (r, s') = run n s in let (rs, s'') = gather run ns s' in (r ∷ rs, s'')

  -- `_run_parallel_stage`
  unfoldable pub run_parallel_stage :
      String → String → String → RoleConfig → Option String → Exec S String
  unfolding run_worker gather
  run_parallel_stage workflow system user role preferred s =
      let names = map worker_name role.workers in
      let (rs, s') = gather (run_worker workflow system user preferred) names s in
      (outcome_of_stage role.combine_strategy names rs (select (λ r. not (is_error r)) rs), s')

  abbrev pub is_parallel : ParallelMode → Bool
  is_parallel parallel = true
  is_parallel single = false

  abbrev pub stage_call :
      String → String → String → Option String → String → Option RoleConfig → Exec S String
  stage_call workflow system user preferred agent none = generate agent system user
  stage_call workflow system user preferred agent (some role) =
      if is_parallel role.parallel_mode && ltb 1 (length role.workers)
      then run_parallel_stage workflow system user role preferred
      else generate agent system user

  -- `_generate_stage_output`
  unfoldable pub generate_stage_output : String → String → String → Option String → Exec S String
  unfolding run_parallel_stage
  generate_stage_output workflow system user preferred =
      elim (resolve_agent_name_for_workflow c workflow preferred) [
        | none ↦ raise value_error (not_found_text c workflow)
        | some agent ↦ stage_call workflow system user preferred agent (get_entry agent c.roles)
      ]
