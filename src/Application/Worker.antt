-- ===== src/Application/Worker.antt =====
-- src/mergemate/application/jobs/worker.py: what the background worker does with one job. The
-- heartbeat runs in another task; its writes are among those that awaited code may bring back.
pub mod Containment
pub mod Shutdown
pub mod Intake
pub mod Heartbeats
use merge_mate.Base.{
  ℕ, String, Bool, true, false, not, Option, none, some, if◌then◌else◌, List, [], ◌∷◌, elem,
}
use merge_mate.Queue.{LocalQueue, discard, acknowledge}
use merge_mate.Domain.Status.{
  RunStatus, RunJobStatus, RunJobType, job_same, running, failed, awaiting_confirmation, same,
  is_terminal, plan_run, execute_run, type_same,
}
use merge_mate.Domain.Runs.{AgentRun, RunJob}
use merge_mate.Persistence.RunRepository.{get, StatusUpdate, update_status}
use merge_mate.Persistence.JobRepository.{claim_job, complete_job, fail_job}
use merge_mate.World.{
  World, Action, Outcome, ok, raised, Error, Kind, pure, raise, gets, handle, try_except, try_else,
  continue, ◌>>=◌, ◌>>◌, on_runs, on_jobs, is_exception, is_prompt_submission, is_cancelled_error,
}
use merge_mate.Application.Submission.{
  Setup, SubmitPromptResult, complete_planning, get_run, set_status,
}
use merge_mate.Application.Orchestrator.{Dependencies, process_run}

-- What the worker is given: its id, the lease, the wait for its semaphore and for its heartbeat task,
-- and the lifecycle notifier, whose calls are awaited.
pub record Worker : Type 0 where
  pub worker_id : String
  pub lease_seconds : ℕ
  pub acquire : Action (Unit {0})
  pub gather_heartbeat : Action (Unit {0})
  pub notify_terminal : AgentRun → Action (Unit {0})
  pub notify_plan_ready : AgentRun → Action (Unit {0})
  pub notify_auto_execution_started : AgentRun → Action (Unit {0})

-- `update_status(run_id, RunStatus.FAILED, error_text=…)`
abbrev pub failed_with : String → StatusUpdate
failed_with error = record {
  status = failed;
  expected_current_status = none;
  current_stage = none;
  result_text = none;
  error_text = some error;
}

abbrev pub interrupted : String
interrupted = "Run interrupted during shutdown."

pub end_run_of : String → Option AgentRun → Action (Option AgentRun)
end_run_of id none = pure none
end_run_of id (some existing) =
    if is_terminal existing.status
    then pure (some existing)
    else set_status (failed_with interrupted) id

-- `_mark_shutdown_interrupted`
unfoldable pub mark_shutdown_interrupted : String → String → Action (Option AgentRun)
unfolding end_run_of
mark_shutdown_interrupted run_id job_id = do
  on_jobs (λ now. fail_job interrupted now job_id)
  existing ← get_run run_id
  end_run_of run_id existing

module _ {L K : Type 0} (s : Setup) (deps : Dependencies L K) (v : Worker) where
  pub planning_done : RunJob → Option SubmitPromptResult → Action (Option AgentRun)
  planning_done job none = do
    on_jobs (λ now. fail_job "Run not found for planning job." now job.job_id)
    pure none
  planning_done job (some _) = do on_jobs (λ now. complete_job now job.job_id); get_run job.run_id

  pub planning_failed : RunJob → Error → Action (Option AgentRun)
  planning_failed job e = do on_jobs (λ now. fail_job e.text now job.job_id); get_run job.run_id

  -- `_process_planning_job`: only a PromptSubmissionError is caught.
  unfoldable pub process_planning_job : RunJob → Action (Option AgentRun)
  unfolding planning_done planning_failed
  process_planning_job job =
      try_else is_prompt_submission (complete_planning s job.run_id) (planning_failed job)
        (planning_done job)

  pub run_and_complete : RunJob → Action (Option AgentRun)
  run_and_complete job = do
    run ← process_run deps job.run_id
    on_jobs (λ now. complete_job now job.job_id)
    pure (some run)

  pub execution_failed : RunJob → Error → Action (Option AgentRun)
  execution_failed job e = do
    run ← set_status (failed_with e.text) job.run_id
    on_jobs (λ now. fail_job e.text now job.job_id)
    pure run

  -- `_process_execution_job`
  unfoldable pub process_execution_job : RunJob → Action (Option AgentRun)
  unfolding run_and_complete execution_failed
  process_execution_job job = try_except is_exception (run_and_complete job) (execution_failed job)

  unfoldable pub process_job : RunJob → Action (Option AgentRun)
  process_job job =
      if type_same job.job_type plan_run
      then process_planning_job job
      else process_execution_job job

  -- `_notify_job_completion`
  unfoldable pub notify_job_completion : RunJobType → AgentRun → Action (Unit {0})
  notify_job_completion execute_run run = v.notify_terminal run
  notify_job_completion plan_run run =
      if same run.status failed
      then v.notify_terminal run
      else if same run.status awaiting_confirmation
      then v.notify_plan_ready run
      else v.notify_auto_execution_started run

  pub notify_result : RunJobType → Option AgentRun → Action (Unit {0})
  unfolding notify_job_completion
  notify_result type none = pure tt
  notify_result type (some run) = notify_job_completion type run

  -- The `finally` clause: it also runs where the body raised.
  pub with_heartbeat : Action (Option AgentRun) → Action (Option AgentRun)
  with_heartbeat body w =
      let (r, w') = body w in
      let (h, w'') = v.gather_heartbeat w' in continue h (λ _. λ u. (r, u)) w''

  pub consume_claimed : Option RunJob → Action (Unit {0})
  unfolding process_job with_heartbeat notify_result
  consume_claimed none = pure tt
  consume_claimed (some job) = if not (job_same job.status running) then pure tt else (do
    run ← with_heartbeat (
        try_except is_cancelled_error (v.acquire >> process_job job)
          (λ _. mark_shutdown_interrupted job.run_id job.job_id))
    notify_result job.job_type run)

  -- `_consume`
  unfoldable pub consume : String → Action (Unit {0})
  unfolding consume_claimed
  consume job_id = do
    job ← on_jobs (λ now. claim_job v.worker_id v.lease_seconds now job_id)
    consume_claimed job

-- The ids of the jobs whose tasks run, and whether the worker stops.
pub record Tasks : Type 0 where
  pub active_job_ids : List String
  pub stopping : Bool

-- `enqueue`: `none` is the WorkerStoppedError; the flag says whether a task was created.
unfoldable pub enqueue : String → Tasks → Option (Bool × Tasks)
enqueue id t =
    if t.stopping
    then none
    else if elem id t.active_job_ids
    then some (false, t)
    else some (true, record t { active_job_ids = id ∷ t.active_job_ids })

-- The callback at the end of a task: it forgets the job, then acknowledges it.
unfoldable pub task_done : String → Tasks → LocalQueue → Tasks × LocalQueue
task_done id t q = (record t { active_job_ids = discard id t.active_job_ids }, (acknowledge id q).1)

-- `stop`, once the tasks have ended.
unfoldable pub stop : Tasks → Tasks
stop t = record { active_job_ids = []; stopping = true }
