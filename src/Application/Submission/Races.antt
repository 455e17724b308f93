-- ===== src/Application/Submission/Races.antt =====
-- Approving and cancelling one run: the first call that is accepted decides, and every later call
-- of either kind changes nothing.
use mathlib.Core.Path.{subst}
use mathlib.Core.Option.{some-injective}
use merge_mate.Queue.{enqueue}
use merge_mate.Base.{
  String, ◌≡◌, inl, inr, sym, ap, ◌∙◌, Bool, true, false, Option, none, some, [], ◌∷◌, select,
  arith,
}
use merge_mate.Domain.Status.{same, is_terminal, value, awaiting_confirmation, queued, execute_run}
use merge_mate.Domain.Runs.{AgentRun, RunJob, ChatId}
use merge_mate.Persistence.RunRepository
use merge_mate.Persistence.RunRepository.{
  Table, get, approve_row, try_update_status, status_row, or_text,
}
use merge_mate.Persistence.RunRepository.Writes.{IsRunTable, approve_lem, accepted}
use merge_mate.Persistence.JobRepository.{active_for}
use merge_mate.World.{World, ok, on_runs}
use merge_mate.Application.Submission.{Setup, ApproveRunResult, dispatch_or_fail}
use merge_mate.Application.Submission.Confirmation.{
  approve, approve_planned, approved_of, foreign, waits, cancel,
}
use merge_mate.Application.Submission.Guards.{
  IsReady, IsRefusal, says_cancelled, approve_guard, cancel_guard,
}
use merge_mate.Application.Submission.Dispatch.{CanDispatch, sent, dispatch_or_fail-sent, job_table}

-- What `approve` returns for a run that it dispatched.
abbrev pub granted : AgentRun → ApproveRunResult
granted r = record {
  run_id = r.run_id;
  dispatched = true;
  status = value queued;
  error_text = none;
}

module _ (s : Setup) (id : String) (w : World) (r : AgentRun) (k : IsRunTable w.runs)
    (found : get id w.runs ≡ some r) (ready : r.status ≡ awaiting_confirmation)
    (fresh : r.approved ≡ false) (can : CanDispatch s w) where
  -- The world after the row was written and before the dispatch.
  abbrev written : World
  written = record w { runs = (RunRepository.approve w.clock id w.runs).1 }

  abbrev row : AgentRun
  row = approve_row w.clock r r

  row_lem :
      let (d, t') = RunRepository.approve w.clock id w.runs in
      (d.transitioned ≡ true) × (d.run ≡ some row) × (get id t' ≡ some row)
  row_lem =
      let (got, run, moved) = approve_lem w.clock id w.runs r k found in
      let yes_accepted : accepted w.clock id w.runs r ≡ true = ground arith in
      ground (arith, got, run, moved, yes_accepted)

  row-status : (row.status ≡ queued) × (row.approved ≡ true) × (row.run_id ≡ r.run_id)
  unfolding approve_row
  row-status = ground arith

  approved_of-sent :
      (transitioned : Bool) (o : Option AgentRun) (x : AgentRun) (w' w'' : World)
      → transitioned ≡ true
      → o ≡ some x
      → dispatch_or_fail s id execute_run false w' ≡ (ok none, w'')
      → approved_of s id transitioned o w' ≡ (
        ok (
            some (record {
              run_id = x.run_id;
              dispatched = true;
              status = value x.status;
              error_text = none;
            })),
        w'',
      )
  unfolding approve
  approved_of-sent transitioned o x w' w'' e1 e2 step =
      let a : (dispatch_or_fail s id execute_run false w').0 ≡ ok none = ap (λ p. p.0) step in
      let b : (dispatch_or_fail s id execute_run false w').1 ≡ w'' = ap (λ p. p.1) step in
      rw (e1, e2) (rw (a, b))

  row-granted :
      record {
        run_id = row.run_id;
        dispatched = true;
        status = value row.status;
        error_text = none;
      }
      ≡ granted r
  unfolding approve_row
  row-granted = ground arith

  can_still : CanDispatch s written
  can_still = record { unique = can.unique; fresh = can.fresh }

  approve_planned-granted :
      (plan : String)
      → (j : RunJob) × (select (active_for id execute_run) (job_table s id execute_run written)
          ≡ j ∷ [])
        × (approve_planned s id r (some plan) w
            ≡ (ok (some (granted r)), sent written j (job_table s id execute_run written)))
  unfolding approve on_runs
  approve_planned-granted plan =
      let d = (RunRepository.approve w.clock id w.runs).0 in
      let (moved, run, got) = row_lem in
      let (j, active, step) = dispatch_or_fail-sent s id execute_run written can_still false in
      let open_gate : waits s r ≡ true = ground arith in
      let moved_on = approved_of-sent d.transitioned d.run row written _ moved run step in
      (
        j,
        active,
        rw open_gate (
            moved_on
            ∙ ap (λ g. (ok (some g), sent written j (job_table s id execute_run written)))
                row-granted),
      )

  approve-granted :
      (chat : Option ChatId) (plan : String)
      → foreign chat r ≡ false
      → r.plan_text ≡ some plan
      → (j : RunJob) × (select (active_for id execute_run) (job_table s id execute_run written)
          ≡ j ∷ [])
        × (approve s id chat w
            ≡ (ok (some (granted r)), sent written j (job_table s id execute_run written)))
  unfolding approve
  approve-granted chat plan ours has_plan =
      let (j, active, step) = approve_planned-granted plan in
      let alive : is_terminal r.status ≡ false = ground arith in
      (j, active, rw found (rw (ours, alive) (rw has_plan step)))

-- An approved run is refused by every later call.
approved-refuses :
    (s : Setup) (id : String) (chat : Option ChatId) (w : World) (r : AgentRun)
    → get id w.runs ≡ some r
    → r.approved ≡ true
    → IsRefusal w (approve s id chat w)
approved-refuses s id chat w r found done = elim (approve_guard s id chat w) [
  | inl (x, there, ready) ↦
      let same_run : x ≡ r = some-injective x r (sym there ∙ found) in
      let open_still : r.approved ≡ false =
        subst (λ (y : AgentRun). y.approved ≡ false) same_run ready.unapproved in
      cc (done, open_still)
  | inr still ↦ still
]

-- If a run is of the chat, waits for its confirmation, is not approved and has a plan, and the
-- jobs keep their index and the next id is free, the first approve leaves one active execution job
-- for it in the table, whose id it puts into the queue, and leaves the run queued and approved; in
-- the world after it every further approve and every cancel of the run changes nothing and says
-- so.
pub approve_wins :
    (s : Setup) (id : String) (chat : Option ChatId) (plan : String) (w : World) (r : AgentRun)
    → IsRunTable w.runs
    → get id w.runs ≡ some r
    → IsReady chat r
    → r.plan_text ≡ some plan
    → CanDispatch s w
    → let w' = (approve s id chat w).1 in
      ((approve s id chat w).0 ≡ ok (some (granted r)))
      × (get id w'.runs ≡ some (approve_row w.clock r r))
      × ((j : RunJob) × (select (active_for id execute_run) w'.jobs ≡ j ∷ [])
          × (w'.queue ≡ (enqueue j.job_id w.queue).1))
      × ((chat' : Option ChatId) → IsRefusal w' (approve s id chat' w'))
      × ((chat' : Option ChatId)
          → let (out, w'') = cancel (some id) chat' w' in (w'' ≡ w') × (says_cancelled out ≡ false))
approve_wins s id chat plan w r k found ready has_plan can =
    let (j, active, step) =
      approve-granted s id w r k found ready.waiting ready.unapproved can chat plan ready.ours
        has_plan in
    let here = (row_lem s id w r k found ready.waiting ready.unapproved can).2 in
    let now_row = row-status s id w r k found ready.waiting ready.unapproved can in
    let w' = (approve s id chat w).1 in
    let at : w' ≡ _ = ap (λ p. p.1) step in
    let there : get id w'.runs ≡ some (approve_row w.clock r r) =
      ap (λ (x : World). get id x.runs) at ∙ here in
    let over : same (approve_row w.clock r r).status awaiting_confirmation ≡ false =
      rw (now_row.0) in
    (
      ap (λ p. p.0) step,
      there,
      (
        j,
        ap (λ (x : World). select (active_for id execute_run) x.jobs) at ∙ active,
        ap (λ (x : World). x.queue) at,
      ),
      λ chat'. approved-refuses s id chat' w' (approve_row w.clock r r) there now_row.1,
      λ chat'. cancel_guard id chat' w' (approve_row w.clock r r) there over,
    )
