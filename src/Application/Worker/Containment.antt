-- ===== src/Application/Worker/Containment.antt =====
-- Which exceptions the processing of an execution job lets out, and what it leaves behind.
use merge_mate.Base.{◌≡◌, refl, ap, ◌∙◌, true, false, Option, some, Bool-cases, inl, inr}
use merge_mate.Domain.Status.{failed}
use merge_mate.Domain.Runs.{AgentRun, RunJob}
use merge_mate.Persistence.RunRepository.{get, status_row, update_status}
use merge_mate.Persistence.RunRepository.Writes.{IsRunTable, try_update_status_cas}
use merge_mate.World.{
  World, Outcome, ok, raised, Error, is_exception, bind-raised, try_except-caught, handle, on_runs,
  on_jobs,
}
use merge_mate.Persistence.JobRepository.Endings.{end_job, failing}
use merge_mate.Application.Submission.{Setup}
use merge_mate.Application.Orchestrator.{Dependencies, process_run}
use merge_mate.Application.Worker.{
  Worker, process_execution_job, run_and_complete, execution_failed, failed_with,
}

-- What comes out is a value or no Exception: cancelled tasks go on to their caller.
abbrev pub IsContained : Outcome (Option AgentRun) × World → Type 0
IsContained (ok a, w) = Unit
IsContained (raised e, w) = is_exception e.kind ≡ false

-- The run as it is marked after the exception.
abbrev pub failed_row : Error → World → AgentRun → AgentRun
failed_row e w r = status_row (failed_with e.text) w.clock r r

module _ {L K : Type 0} (s : Setup) (deps : Dependencies L K) (v : Worker) (job : RunJob) where
  execution_failed-IsContained :
      (e : Error) (w : World) → IsContained (execution_failed s deps v job e w)
  unfolding execution_failed on_runs on_jobs
  execution_failed-IsContained e w = tt

  handle-IsContained :
      (r : Outcome (Option AgentRun)) (w : World)
      → IsContained (handle is_exception (execution_failed s deps v job) r w)
  handle-IsContained (ok a) w = tt
  handle-IsContained (raised e) w = elim (Bool-cases (is_exception e.kind)) [
    | inl y ↦ rw y (execution_failed-IsContained e w)
    | inr n ↦ rw n n
  ]

  -- The processing of an execution job raises no Exception, whatever the services and the other
  -- tasks do.
  pub process_execution_job-IsContained :
      (w : World) → IsContained (process_execution_job s deps v job w)
  unfolding process_execution_job
  process_execution_job-IsContained w =
      let out = run_and_complete s deps v job w in handle-IsContained out.0 out.1

  module _ (w w' : World) (e : Error) (r : AgentRun) where
    failure_step :
        process_run deps job.run_id w ≡ (raised e, w')
        → is_exception e.kind ≡ true
        → process_execution_job s deps v job w ≡ execution_failed s deps v job e w'
    unfolding process_execution_job run_and_complete
    failure_step h caught =
        try_except-caught is_exception (run_and_complete s deps v job)
          (execution_failed s deps v job) w w' e
          (bind-raised (process_run deps job.run_id) _ w w' e h) caught

    -- If process_run raises an Exception, the processing of the execution job marks the run as
    -- failed with the text of the exception, whatever its status was by then, and fails the job;
    -- the failed run is the result.
    pub process_execution_job-failure :
        process_run deps job.run_id w ≡ (raised e, w')
        → is_exception e.kind ≡ true
        → IsRunTable w'.runs
        → get job.run_id w'.runs ≡ some r
        → let (out, u) = process_execution_job s deps v job w in
          (out ≡ ok (some (failed_row e w' r)))
          × (get job.run_id u.runs ≡ some (failed_row e w' r))
          × ((failed_row e w' r).status ≡ failed)
          × (u.jobs ≡ end_job (failing e.text) w'.clock job.job_id w'.jobs)
    unfolding execution_failed on_runs on_jobs end_job update_status status_row
    process_execution_job-failure h caught k found =
        let (row, run, _) =
          try_update_status_cas (failed_with e.text) w'.clock job.run_id w'.runs r k found in
        rw (failure_step h caught) (ap (λ x. ok x) (run ∙ row), row, refl, refl)
