-- ===== src/Persistence/JobRepository/Exclusion.antt =====
-- While a lease lasts no other worker can take the job; a worker that lost its lease cannot
-- renew it; a finished job is never taken again.
use merge_mate.Base.{
  ℕ, ◌+◌, ◌≤◌, String, ◌≡◌, refl, true, false, none, some, arith, str_eq, IsKeyed-update_where,
}
use merge_mate.Domain.Runs.{RunJob}
use merge_mate.Persistence.JobRepository.{
  Jobs, job_key, get_job, claimable, claim_row, claim_job, beats, heartbeat_row, heartbeat_job,
}
use merge_mate.Persistence.JobRepository.Leases.{
  IsJobTable, claim_job-granted, claim_job-refused, heartbeat_job-granted, heartbeat_job-refused,
}

pub claim_job-IsJobTable :
    (worker id : String) (lease now : ℕ) (t : Jobs)
    → IsJobTable t
    → IsJobTable (claim_job worker lease now id t).1
unfolding claim_job claim_row
claim_job-IsJobTable worker id lease now t k =
    IsKeyed-update_where job_key _ (claim_row worker lease now) (λ x. refl) t k

pub heartbeat_job-IsJobTable :
    (worker id : String) (lease now : ℕ) (t : Jobs)
    → IsJobTable t
    → IsJobTable (heartbeat_job worker lease now id t).1
unfolding heartbeat_job heartbeat_row
heartbeat_job-IsJobTable worker id lease now t k =
    IsKeyed-update_where job_key _ (heartbeat_row lease now) (λ x. refl) t k

claim_row-leased :
    (worker : String) (lease now now' : ℕ) (j : RunJob)
    → now' ≤ now + lease
    → claimable now' (claim_row worker lease now j) ≡ false
unfolding claim_row
claim_row-leased worker lease now now' j h = ground arith

heartbeat_row-leased :
    (worker : String) (lease now now' : ℕ) (j : RunJob)
    → beats worker j ≡ true
    → now' ≤ now + lease
    → claimable now' (heartbeat_row lease now j) ≡ false
unfolding heartbeat_row
heartbeat_row-leased worker lease now now' j b h = ground arith

claim_row-owned :
    (worker other : String) (lease now : ℕ) (j : RunJob)
    → str_eq worker other ≡ false
    → beats other (claim_row worker lease now j) ≡ false
unfolding claim_row
claim_row-owned worker other lease now j h = rw h

module _ (worker id : String) (lease now : ℕ) (t : Jobs) (j : RunJob) (k : IsJobTable t)
    (found : get_job id t ≡ some j) where
  -- After a worker has claimed a claimable job, every claim of it by any worker up to the end of
  -- the lease is refused and changes nothing.
  pub claim_job-exclusive :
      (other : String) (lease' now' : ℕ)
      → claimable now j ≡ true
      → now' ≤ now + lease
      → let t' = (claim_job worker lease now id t).1 in
        claim_job other lease' now' id t' ≡ (none, t')
  claim_job-exclusive other lease' now' free early =
      let t' = (claim_job worker lease now id t).1 in
      claim_job-refused other id lease' now' t' (claim_row worker lease now j)
        (claim_job-IsJobTable worker id lease now t k)
        (claim_job-granted worker id lease now t j k found free).1
        (claim_row-leased worker lease now now' j early)

  -- A heartbeat of the worker that runs the job keeps every claim of the job out for another
  -- lease.
  pub heartbeat_job-renews :
      (other : String) (lease' now' : ℕ)
      → beats worker j ≡ true
      → now' ≤ now + lease
      → let t' = (heartbeat_job worker lease now id t).1 in
        claim_job other lease' now' id t' ≡ (none, t')
  heartbeat_job-renews other lease' now' mine early =
      let t' = (heartbeat_job worker lease now id t).1 in
      claim_job-refused other id lease' now' t' (heartbeat_row lease now j)
        (heartbeat_job-IsJobTable worker id lease now t k)
        (heartbeat_job-granted worker id lease now t j k found mine).1
        (heartbeat_row-leased worker lease now now' j mine early)

  -- After a worker has claimed a claimable job, the heartbeats of every worker with another id are
  -- refused and change nothing.
  pub claim_job-evicts :
      (other : String) (lease' now' : ℕ)
      → claimable now j ≡ true
      → str_eq worker other ≡ false
      → let t' = (claim_job worker lease now id t).1 in
        heartbeat_job other lease' now' id t' ≡ (none, t')
  claim_job-evicts other lease' now' free different =
      let t' = (claim_job worker lease now id t).1 in
      heartbeat_job-refused other id lease' now' t' (claim_row worker lease now j)
        (claim_job-IsJobTable worker id lease now t k)
        (claim_job-granted worker id lease now t j k found free).1
        (claim_row-owned worker other lease now j different)
