-- ===== src/Application/Worker/Heartbeats.antt =====
-- src/mergemate/application/jobs/worker.py, `_heartbeat`, and how long it keeps other workers from a job:
-- the claims and heartbeats that reach the table of jobs while the task runs, in any order.
use merge_mate.Base.{
  ℕ, ◌+◌, ◌≤◌, ◌≡◌, refl, String, Bool, true, false, none, some, List, [], ◌∷◌, if◌then◌else◌,
  eq_refl, arith,
}
use merge_mate.Domain.Runs.{RunJob}
use merge_mate.World.{Action, pure, ◌>>◌, on_jobs}
use merge_mate.Persistence.JobRepository.{
  Jobs, get_job, claimable, claim_row, claim_job, beats, heartbeat_row, heartbeat_job,
}
use merge_mate.Persistence.JobRepository.Leases.{
  IsJobTable, claim_job-granted, claim_job-refused, heartbeat_job-granted,
}
use merge_mate.Persistence.JobRepository.Exclusion.{claim_job-IsJobTable, heartbeat_job-IsJobTable}

-- `_heartbeat`, for what each of its waits gives: true where the event was set, and false where the
-- interval was over.
unfoldable pub heartbeat : String → ℕ → String → List Bool → Action (Unit {0})
heartbeat worker lease id [] = pure tt
heartbeat worker lease id (set ∷ waits) =
    let later =
      on_jobs (λ now. heartbeat_job worker lease now id) >> heartbeat worker lease id waits in
    if set then pure tt else later

-- The table, the clock, and the time of the last claim or heartbeat of the worker.
pub record Beat : Type 0 where
  pub jobs : Jobs
  pub now : ℕ
  pub last : ℕ

module _ (worker id : String) (lease interval : ℕ) where
  -- What happens to the job while its worker's heartbeat task runs: time passes, but not beyond the
  -- interval without a heartbeat; a heartbeat; or a claim of the job by anyone.
  pub data BeatStep : Beat → Beat → Type 0 where
    passes :
        (b : Beat) (later : ℕ)
        → b.now ≤ later
        → later ≤ b.last + interval
        → BeatStep b (record b { now = later })
    beat_of :
        (b : Beat)
        → BeatStep b (record {
          jobs = (heartbeat_job worker lease b.now id b.jobs).1;
          now = b.now;
          last = b.now;
        })
    claims :
        (b : Beat) (other : String) (lease' : ℕ)
        → BeatStep b (record b { jobs = (claim_job other lease' b.now id b.jobs).1 })

  -- From a claim of the job on.
  pub data IsBeating (start : Beat) : Beat → Type 0 where
    claimed : IsBeating start (record {
      jobs = (claim_job worker lease start.now id start.jobs).1;
      now = start.now;
      last = start.now;
    })
    goes_on : {b c : Beat} → IsBeating start b → BeatStep b c → IsBeating start c

  -- The worker has the job, with a lease from the last heartbeat on.
  abbrev pub IsHeld : Beat → Type 0
  IsHeld b =
      IsJobTable b.jobs
      × (b.now ≤ b.last + interval)
      × ((j : RunJob) × (get_job id b.jobs ≡ some j)
          × (beats worker j ≡ true)
          × (j.lease_expires_at ≡ some (b.last + lease)))

  leased-claimable :
      (j : RunJob) (last now : ℕ)
      → beats worker j ≡ true
      → j.lease_expires_at ≡ some (last + lease)
      → now ≤ last + lease
      → claimable now j ≡ false
  leased-claimable j last now h e le = rw e (ground (arith, h, le))

  -- While the worker has the job, every claim is refused.
  held-refused :
      (b : Beat) (other : String) (lease' : ℕ)
      → interval ≤ lease
      → IsHeld b
      → claim_job other lease' b.now id b.jobs ≡ (none, b.jobs)
  held-refused b other lease' le (keyed, early, (j, found, mine, until)) =
      claim_job-refused other id lease' b.now b.jobs j keyed found
        (leased-claimable j b.last b.now mine until (omega (arith, early, le)))

  claim_row-beats : (now : ℕ) (j : RunJob) → beats worker (claim_row worker lease now j) ≡ true
  unfolding claim_row
  claim_row-beats now j = rw (eq_refl worker) refl

  heartbeat_row-beats :
      (now : ℕ) (j : RunJob)
      → beats worker j ≡ true
      → beats worker (heartbeat_row lease now j) ≡ true
  unfolding heartbeat_row
  heartbeat_row-beats now j h = h

  step-IsHeld : {b c : Beat} → interval ≤ lease → BeatStep b c → IsHeld b → IsHeld c
  step-IsHeld le (passes b later after within) (keyed, early, job) = (keyed, within, job)
  step-IsHeld le (claims b other lease') h = rw (held-refused b other lease' le h) h
  step-IsHeld le (beat_of b) (keyed, early, (j, found, mine, until)) = (
    heartbeat_job-IsJobTable worker id lease b.now b.jobs keyed,
    omega arith,
    (
      heartbeat_row lease b.now j,
      (heartbeat_job-granted worker id lease b.now b.jobs j keyed found mine).1,
      heartbeat_row-beats b.now j mine,
      unfold heartbeat_row in refl,
    ),
  )

  module _ (start : Beat) (j : RunJob) (keyed : IsJobTable start.jobs)
      (found : get_job id start.jobs ≡ some j) (free : claimable start.now j ≡ true)
      (le : interval ≤ lease) where
    IsBeating-IsHeld : {b : Beat} → IsBeating start b → IsHeld b
    IsBeating-IsHeld claimed = (
      claim_job-IsJobTable worker id lease start.now start.jobs keyed,
      omega arith,
      (
        claim_row worker lease start.now j,
        (claim_job-granted worker id lease start.now start.jobs j keyed found free).1,
        claim_row-beats start.now j,
        unfold claim_row in refl,
      ),
    )
    IsBeating-IsHeld (goes_on r s) = step-IsHeld le s (IsBeating-IsHeld r)

    -- If the interval of the heartbeats is not longer than the lease, then after a worker has
    -- claimed a claimable job of a table with unique ids, and for as long as its heartbeats come
    -- in time, every claim of the job by any worker is refused and changes nothing, whatever
    -- claims came before it.
    pub heartbeat-exclusive :
        (b : Beat) (other : String) (lease' : ℕ)
        → IsBeating start b
        → claim_job other lease' b.now id b.jobs ≡ (none, b.jobs)
    heartbeat-exclusive b other lease' r = held-refused b other lease' le (IsBeating-IsHeld r)
