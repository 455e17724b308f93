-- ===== src/Persistence/JobRepository/Endings.antt =====
-- `complete_job` and `fail_job`: a job that ended has no lease, and is never run again.
use merge_mate.Base.{
  ℕ, String, ◌≡◌, refl, false, none, some, arith, find-update_key, IsKeyed-update_where,
  if◌then◌else◌, Bool-cases, inl, inr,
}
use merge_mate.Domain.Status.{RunJobStatus, job_same, completed, failed}
use merge_mate.Domain.Runs.{RunJob}
use merge_mate.Persistence.JobRepository.{
  Jobs, job_key, get_job, claimable, claim_job, beats, heartbeat_job, complete_job, complete_row,
  fail_job, fail_row, finish_job,
}
use merge_mate.Persistence.JobRepository.Leases.{
  IsJobTable, claim_job-refused, heartbeat_job-refused,
}

module _ (goal : RunJobStatus) (row : RunJob → RunJob)
    (keep : (j : RunJob) → (row j).job_id ≡ j.job_id) (id : String) (t : Jobs) (j : RunJob) where
  finish_job-get :
      get_job id t ≡ some j
      → get_job id (finish_job goal row j id t).1
        ≡ some (if job_same j.status goal then j else row j)
  unfolding finish_job get_job
  finish_job-get found = elim (Bool-cases (job_same j.status goal)) [
    | inl e ↦ rw e found
    | inr e ↦ rw e (find-update_key job_key row keep id t j found)
  ]

  finish_job-IsJobTable : IsJobTable t → IsJobTable (finish_job goal row j id t).1
  unfolding finish_job
  finish_job-IsJobTable k = elim (Bool-cases (job_same j.status goal)) [
    | inl e ↦ rw e k
    | inr e ↦ rw e (IsKeyed-update_where job_key _ row keep t k)
  ]

-- The two ways to end a job.
pub data Ending : Type 0 where
  completing : Ending
  failing : String → Ending

abbrev pub goal_of : Ending → RunJobStatus
goal_of completing = completed
goal_of (failing _) = failed

abbrev pub ended_row : Ending → ℕ → RunJob → RunJob
ended_row completing now j = complete_row now j
ended_row (failing error) now j = fail_row error now j

unfoldable pub end_job : Ending → ℕ → String → Jobs → Jobs
end_job completing now id t = (complete_job now id t).1
end_job (failing error) now id t = (fail_job error now id t).1

pub end_job-found :
    (e : Ending) (now : ℕ) (id : String) (t : Jobs) (j : RunJob)
    → get_job id t ≡ some j
    → end_job e now id t ≡ (finish_job (goal_of e) (ended_row e now) j id t).1
unfolding end_job complete_job fail_job
end_job-found completing now id t j h = rw (h, end_job, complete_job)
end_job-found (failing error) now id t j h = rw (h, end_job, fail_job)

ended_row-key : (e : Ending) (now : ℕ) (j : RunJob) → (ended_row e now j).job_id ≡ j.job_id
unfolding complete_row fail_row
ended_row-key completing now j = refl
ended_row-key (failing error) now j = refl

-- What a row is after the job ended: unchanged if it had ended in that way before.
abbrev pub after_end : Ending → ℕ → RunJob → RunJob
after_end e now j = if job_same j.status (goal_of e) then j else ended_row e now j

pub end_job-get :
    (e : Ending) (now : ℕ) (id : String) (t : Jobs) (j : RunJob)
    → get_job id t ≡ some j
    → get_job id (end_job e now id t) ≡ some (after_end e now j)
end_job-get e now id t j h =
    rw (end_job-found e now id t j h)
      (finish_job-get (goal_of e) (ended_row e now) (ended_row-key e now) id t j h)

end_job-IsJobTable :
    (e : Ending) (now : ℕ) (id : String) (t : Jobs) (j : RunJob)
    → get_job id t ≡ some j
    → IsJobTable t
    → IsJobTable (end_job e now id t)
end_job-IsJobTable e now id t j h k =
    rw (end_job-found e now id t j h)
      (finish_job-IsJobTable (goal_of e) (ended_row e now) (ended_row-key e now) id t j k)

after_end-inert :
    (e : Ending) (now now' : ℕ) (worker : String) (j : RunJob)
    → (claimable now' (after_end e now j) ≡ false) × (beats worker (after_end e now j) ≡ false)
unfolding complete_row fail_row
after_end-inert completing now now' worker j = ground arith
after_end-inert (failing error) now now' worker j = ground arith

-- After a job was completed or failed, every claim and every heartbeat of it is refused and
-- changes nothing.
pub end_job-final :
    (e : Ending) (now : ℕ) (worker id : String) (lease now' : ℕ) (t : Jobs) (j : RunJob)
    → IsJobTable t
    → get_job id t ≡ some j
    → let t' = end_job e now id t in
      (claim_job worker lease now' id t' ≡ (none, t'))
      × (heartbeat_job worker lease now' id t' ≡ (none, t'))
end_job-final e now worker id lease now' t j k h =
    let t' = end_job e now id t in
    let k' = end_job-IsJobTable e now id t j h k in
    let there = end_job-get e now id t j h in
    let inert = after_end-inert e now now' worker j in
    (
      claim_job-refused worker id lease now' t' (after_end e now j) k' there inert.0,
      heartbeat_job-refused worker id lease now' t' (after_end e now j) k' there inert.1,
    )
