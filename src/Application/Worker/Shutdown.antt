-- ===== src/Application/Worker/Shutdown.antt =====
-- What a worker that is stopped leaves of the job that it was working on.
use merge_mate.Base.{String, ◌≡◌, refl, ap, ◌∙◌, true, some, Bool-cases, inl, inr, if◌then◌else◌}
use merge_mate.Domain.Status.{is_terminal}
use merge_mate.Domain.Runs.{AgentRun}
use merge_mate.Persistence.RunRepository.{get, status_row, update_status}
use merge_mate.Persistence.RunRepository.Writes.{IsRunTable, try_update_status_cas}
use merge_mate.Persistence.JobRepository.Endings.{end_job, failing}
use merge_mate.World.{World, ok, on_runs, on_jobs}
use merge_mate.Application.Worker.{mark_shutdown_interrupted, end_run_of, failed_with, interrupted}

module _ (id job_id : String) (w : World) (r : AgentRun) where
  -- The run after the shutdown: a terminal run keeps its status, any other one is failed.
  abbrev pub left_run : AgentRun
  left_run = if is_terminal r.status then r else status_row (failed_with interrupted) w.clock r r

  abbrev jobless : World
  jobless = record w { jobs = end_job (failing interrupted) w.clock job_id w.jobs }

  end_run_of_lem :
      IsRunTable w.runs
      → get id w.runs ≡ some r
      → let (out, u) = end_run_of id (some r) jobless in
        (out ≡ ok (some left_run)) × (get id u.runs ≡ some left_run) × (u.jobs ≡ jobless.jobs)
  unfolding end_run_of on_runs update_status
  end_run_of_lem k found = elim (Bool-cases (is_terminal r.status)) [
    | inl y ↦ rw y (refl, found, refl)
    | inr n ↦
        let (row, run, _) =
          try_update_status_cas (failed_with interrupted) w.clock id w.runs r k found in
        rw n (ap (λ x. ok x) (run ∙ row), row, refl)
  ]

  -- For a run of a table with unique ids, a shutdown fails the job; it returns the run and leaves
  -- it as it was if its status was terminal and failed otherwise, so the run's status is terminal
  -- afterwards.
  pub mark_shutdown_interrupted_lem :
      IsRunTable w.runs
      → get id w.runs ≡ some r
      → let (out, u) = mark_shutdown_interrupted id job_id w in
        (out ≡ ok (some left_run))
        × (get id u.runs ≡ some left_run)
        × (is_terminal left_run.status ≡ true)
        × (u.jobs ≡ end_job (failing interrupted) w.clock job_id w.jobs)
  unfolding mark_shutdown_interrupted on_jobs end_job
  mark_shutdown_interrupted_lem k found =
      let (out, row, jobs) = end_run_of_lem k found in
      let ends : is_terminal left_run.status ≡ true = elim (Bool-cases (is_terminal r.status)) [
        | inl y ↦ rw y y
        | inr n ↦ rw n (unfold status_row in refl)
      ] in
      rw (found) (out, row, ends, jobs)
