-- ===== src/Application/Submission/Dispatch.antt =====
-- What a dispatch does: it never fails under fresh ids, and the handler of RuntimeError around it
-- is never entered.
use merge_mate.Base.{
  ◌+◌, String, ◌≡◌, inl, inr, refl, ap, ◌∙◌, Bool, true, false, Option, none, some, [], ◌∷◌, select,
  arith,
}
use merge_mate.Domain.Status.{RunJobType, job_value}
use merge_mate.Domain.Runs.{RunJob, QueuedRunJobDecision}
use merge_mate.Persistence.JobRepository.{Jobs, get_job, active_for, ensure_queued_job}
use merge_mate.Persistence.JobRepository.Active.{IsUnique}
use merge_mate.Persistence.JobRepository.Ensure.{ensure-single}
use merge_mate.Queue.{enqueue}
use merge_mate.World.{
  World, Outcome, ok, raised, Error, is_runtime_error, on_jobs, on_queue, draw, try_else, pure,
}
use merge_mate.Application.Submission.{
  Setup, DispatchResult, dispatch_run, dispatch_or_fail, queue_job, send_job, dispatch_failed,
}

-- What the dispatch needs of the world: the unique index, and an id that is not taken.
pub record CanDispatch (s : Setup) (w : World) : Type 0 where
  pub unique : IsUnique w.jobs
  pub fresh : get_job (s.uuid w.drawn) w.jobs ≡ none

-- The world after a dispatch that left the job `j` and the table `t` of jobs.
abbrev pub sent : World → RunJob → Jobs → World
sent w j t = record w { jobs = t; queue = (enqueue j.job_id w.queue).1; drawn = w.drawn + 1 }

-- The outcome of a dispatch with its value dropped.
abbrev pub without_value : Outcome DispatchResult → Outcome (Option String)
without_value (ok _) = ok none
without_value (raised e) = raised e

module _ (s : Setup) (run : String) (type : RunJobType) where
  send_job-error :
      (b : Bool) (o : Option RunJob) (w : World) (e : Error)
      → (send_job s run b o w).0 ≡ raised e
      → is_runtime_error e.kind ≡ false
  unfolding dispatch_run on_queue
  send_job-error b none w e h = ground arith
  send_job-error b (some j) w e h = cc

  queue_job-error :
      (d : Option QueuedRunJobDecision) (w : World) (e : Error)
      → (queue_job s run d w).0 ≡ raised e
      → is_runtime_error e.kind ≡ false
  unfolding dispatch_run
  queue_job-error none w e h = ground arith
  queue_job-error (some d) w e h = send_job-error d.created d.job w e h

  -- Whatever a dispatch raises is no RuntimeError.
  dispatch_run-error :
      (w : World) (e : Error)
      → (dispatch_run s run type w).0 ≡ raised e
      → is_runtime_error e.kind ≡ false
  unfolding dispatch_run on_jobs draw
  dispatch_run-error w e h = queue_job-error _ _ e h

  passes :
      (flag : Bool) (out : Outcome DispatchResult) (w : World)
      → ((e : Error) → out ≡ raised e → is_runtime_error e.kind ≡ false)
      → try_else is_runtime_error
          (λ _. (out, w))
          (dispatch_failed s run type flag)
          (λ _. pure none)
          w
        ≡ (without_value out, w)
  passes flag (ok r) w h = refl
  passes flag (raised e) w h = rw (h e refl)

  -- _dispatch_or_fail never marks a run as failed and never returns an error text: whatever the
  -- dispatch raises passes through it, in the world that the dispatch left.
  pub dispatch_or_fail-transparent :
      (flag : Bool) (w : World)
      → let (out, w') = dispatch_run s run type w in
        dispatch_or_fail s run type flag w ≡ (without_value out, w')
  unfolding dispatch_or_fail
  dispatch_or_fail-transparent flag w =
      passes flag (dispatch_run s run type w).0 (dispatch_run s run type w).1 (dispatch_run-error w)

send_job-some :
    (s : Setup) (run : String) (d : Option QueuedRunJobDecision) (w : World) (j : RunJob) (b : Bool)
    → d ≡ some (record { job = some j; created = b })
    → queue_job s run d w ≡ (
      ok (record { run_id = run; job_id = j.job_id; status = job_value j.status; created = b }),
      record w { queue = (enqueue j.job_id w.queue).1 },
    )
unfolding dispatch_run on_queue
send_job-some s run d w j b e = rw e

dispatch_or_fail-of_job :
    (s : Setup) (run : String) (type : RunJobType) (w : World) (flag : Bool) (j : RunJob) (b : Bool)
    → let (d, t) = ensure_queued_job run type (s.uuid w.drawn) w.clock w.jobs in
      d ≡ some (record { job = some j; created = b })
      → dispatch_or_fail s run type flag w ≡ (ok none, sent w j t)
dispatch_or_fail-of_job s run type w flag j b e =
    let t = (ensure_queued_job run type (s.uuid w.drawn) w.clock w.jobs).1 in
    let step : dispatch_run s run type w ≡ (
      ok (record { run_id = run; job_id = j.job_id; status = job_value j.status; created = b }),
      sent w j t,
    ) =
      unfold dispatch_run on_jobs draw in send_job-some s run _ _ j b e in
    dispatch_or_fail-transparent s run type flag w
    ∙ ap (λ (p : Outcome DispatchResult × World). (without_value p.0, p.1)) step

-- The table of jobs after a dispatch.
abbrev pub job_table : Setup → String → RunJobType → World → Jobs
job_table s run type w = (ensure_queued_job run type (s.uuid w.drawn) w.clock w.jobs).1

module _ (s : Setup) (run : String) (type : RunJobType) (w : World) (can : CanDispatch s w) where
  -- If the jobs keep their index and the next id is free, a dispatch does not fail: it leaves one
  -- active job of the run and type in the table, puts its id into the queue, and changes nothing
  -- else but the number of drawn ids.
  pub dispatch_or_fail-sent :
      (flag : Bool)
      → (j : RunJob) × (select (active_for run type) (job_table s run type w) ≡ j ∷ [])
        × (dispatch_or_fail s run type flag w ≡ (ok none, sent w j (job_table s run type w)))
  dispatch_or_fail-sent flag =
      let (j, which, active) =
        ensure-single run type (s.uuid w.drawn) w.clock w.jobs can.unique can.fresh in
      elim which [
        | inl e ↦ (j, active, dispatch_or_fail-of_job s run type w flag j true e)
        | inr e ↦ (j, active, dispatch_or_fail-of_job s run type w flag j false e)
      ]
