-- ===== src/Application/Submission.antt =====
-- src/mergemate/application/use_cases/submit_prompt.py and jobs/dispatcher.py.
pub mod Confirmation
pub mod Planning
pub mod Guards
pub mod Races
pub mod Dispatch
use merge_mate.Base.{
  ℕ, String, Bool, true, false, ◌&&◌, ◌||◌, not, Option, none, some, if◌then◌else◌, List, [], ◌∷◌,
  ◌++◌, text_append,
}
use merge_mate.Domain.Status.{
  RunStatus, RunStage, RunJobType, same, is_terminal, value, job_value, stage_value, plan_run,
  execute_run, awaiting_confirmation, queued, failed, cancelled, planning, queued_for_execution,
  type_same,
}
use merge_mate.Domain.Runs.{AgentRun, RunJob, ChatId, chat_eq, Decision, QueuedRunJobDecision}
use merge_mate.Persistence.RunRepository.{
  Table, get, create, StatusUpdate, update_status, update_plan, approve, stage,
}
use merge_mate.Persistence.JobRepository.{ensure_queued_job}
use merge_mate.Queue.{enqueue}
use merge_mate.World.{
  World, Action, Outcome, ok, raised, Error, Kind, job_queue, integrity_error, prompt_submission,
  is_runtime_error, is_exception, pure, raise, gets, handle, try_except, try_else, continue, ◌>>=◌,
  ◌>>◌, on_runs, on_jobs, on_queue, draw, append_message,
}

pub record DispatchResult : Type 0 where
  pub run_id : String
  pub job_id : String
  pub status : String
  pub created : Bool

pub record SubmitPromptResult : Type 0 where
  pub run_id : String
  pub status : String
  pub estimate_seconds : ℕ
  pub plan_text : Option String

pub record ApproveRunResult : Type 0 where
  pub run_id : String
  pub dispatched : Bool
  pub status : String
  pub error_text : Option String

-- What the constructor of the use case is given: the settings that it reads, the estimator, the
-- planning service, whose calls are awaited, and the ids of `uuid4`.
pub record Setup : Type 0 where
  pub require_confirmation : Bool
  pub repo_name : Option String
  pub estimate_duration : String → String → ℕ
  pub draft_plan : String → Option String → Action String
  pub revise_plan : String → String → Action (String × String)
  pub uuid : ℕ → String

-- The keyword arguments of an `update_status` with no expected status.
abbrev pub failure : RunStage → String → StatusUpdate
failure s error = record {
  status = failed;
  expected_current_status = none;
  current_stage = stage s;
  result_text = none;
  error_text = some error;
}

abbrev pub get_run : String → Action (Option AgentRun)
get_run id = gets (λ (w : World). get id w.runs)

abbrev pub set_status : StatusUpdate → String → Action (Option AgentRun)
set_status u id = on_runs (λ now. update_status u now id)

module _ (s : Setup) where
  open s use {require_confirmation, repo_name, estimate_duration, draft_plan, revise_plan, uuid}

  pub send_job : String → Bool → Option RunJob → Action DispatchResult
  send_job run created none =
      raise job_queue (text_append "Unable to queue background job for run " (text_append run "."))
  send_job run created (some j) = do
    on_queue (enqueue j.job_id)
    pure
        (record { run_id = run; job_id = j.job_id; status = job_value j.status; created = created })

  pub queue_job : String → Option QueuedRunJobDecision → Action DispatchResult
  unfolding send_job
  queue_job run none = raise integrity_error ""
  queue_job run (some d) = send_job run d.created d.job

  -- `RunDispatcher.dispatch_run`
  unfoldable pub dispatch_run : String → RunJobType → Action DispatchResult
  unfolding queue_job
  dispatch_run run type = do
    id ← draw uuid
    d ← on_jobs (ensure_queued_job run type id)
    queue_job run d

  -- The stage that a failed dispatch records.
  abbrev pub dispatch_stage : RunJobType → RunStage
  dispatch_stage plan_run = planning
  dispatch_stage execute_run = queued_for_execution

  pub dispatch_failed : String → RunJobType → Bool → Error → Action (Option String)
  dispatch_failed run type raise_on_error e = do
    set_status (failure (dispatch_stage type) e.text) run
    if raise_on_error then raise prompt_submission e.text else pure (some e.text)

  -- `_dispatch_or_fail`: only a RuntimeError is caught.
  unfoldable pub dispatch_or_fail : String → RunJobType → Bool → Action (Option String)
  unfolding dispatch_failed
  dispatch_or_fail run type raise_on_error =
      try_else is_runtime_error (dispatch_run run type) (dispatch_failed run type raise_on_error)
        (λ _. pure none)

  unfoldable pub new_run : String → ChatId → ChatId → String → String → String → ℕ → AgentRun
  new_run id chat user agent workflow prompt now = record {
    run_id = id;
    chat_id = chat;
    user_id = user;
    agent_name = agent;
    workflow = workflow;
    status = if require_confirmation then awaiting_confirmation else queued;
    current_stage = stage_value planning;
    prompt = prompt;
    estimate_seconds = estimate_duration workflow prompt;
    plan_text = none;
    design_text = none;
    test_text = none;
    review_text = none;
    review_iterations = 0;
    approved = false;
    result_text = none;
    error_text = none;
    created_at = now;
    updated_at = now;
    repo_name = repo_name;
  }

  -- `SQLiteRunRepository.create` with its IntegrityError.
  insert_run : AgentRun → Action (Unit {0})
  insert_run r w = elim (create r w.runs) [
    | none ↦ raise integrity_error "" w
    | some t ↦ (ok tt, record w { runs = t })
  ]

  -- `SubmitPromptUseCase.execute`
  unfoldable pub execute : ChatId → ChatId → String → String → String → Action SubmitPromptResult
  unfolding insert_run
  execute chat user agent workflow prompt = do
    now ← gets (λ (w : World). w.clock)
    id ← draw uuid
    let run = new_run id chat user agent workflow prompt now
    insert_run run
    append_message chat "user" prompt
    dispatch_or_fail id plan_run true
    pure (record {
      run_id = id;
      status = value run.status;
      estimate_seconds = run.estimate_seconds;
      plan_text = none;
    })

  planning_failed : String → Error → Action (Option SubmitPromptResult)
  planning_failed id e = do set_status (failure planning e.text) id; raise prompt_submission e.text

  queue_execution : String → Option AgentRun → Action (Unit {0})
  queue_execution id none = raise prompt_submission "Run approval failed before dispatch."
  queue_execution id (some _) = do dispatch_or_fail id execute_run true; pure tt

  -- The branch of `complete_planning` for a run that needs no confirmation.
  approve_and_queue : String → String → Action String
  unfolding queue_execution
  approve_and_queue id plan = do
    on_runs (λ now. update_plan plan none (stage queued_for_execution) now id)
    approval ← on_runs (λ now. approve now id)
    queue_execution id approval.run
    pure (value queued)

  wait_for_user : String → String → Action String
  wait_for_user id plan = do
    on_runs (λ now. update_plan plan none none now id)
    pure (value awaiting_confirmation)

  planned : String → AgentRun → String → Action (Option SubmitPromptResult)
  unfolding approve_and_queue wait_for_user
  planned id run plan = do
    status ←
        (if same run.status awaiting_confirmation
          then wait_for_user id plan
          else approve_and_queue id plan)
    pure (
        some (record {
          run_id = id;
          status = status;
          estimate_seconds = run.estimate_seconds;
          plan_text = some plan;
        }))

  complete_planning_of : String → Option AgentRun → Action (Option SubmitPromptResult)
  unfolding planning_failed planned
  complete_planning_of id none = pure none
  complete_planning_of id (some run) =
      try_else is_exception (draft_plan run.prompt none) (planning_failed id) (planned id run)

  -- `SubmitPromptUseCase.complete_planning`: the status is that of the run before the plan was drafted.
  unfoldable pub complete_planning : String → Action (Option SubmitPromptResult)
  unfolding complete_planning_of
  complete_planning id = do run ← get_run id; complete_planning_of id run
