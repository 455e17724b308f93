-- ===== src/Persistence/JobRepository/Leases.antt =====
-- Leases: which worker may run a job, and for how long.
use merge_mate.Base.{
  ℕ, String, ◌≡◌, refl, Bool, true, false, none, some, arith, if◌then◌else◌, ltb, IsKeyed,
  find-update_self, count_where-keyed, update_where-refused, ◌==◌,
}
use merge_mate.Domain.Runs.{RunJob}
use merge_mate.Persistence.JobRepository.{
  Jobs, job_key, get_job, claimable, claim_row, claim_job, beats, heartbeat_row, heartbeat_job,
}

abbrev pub IsJobTable : Jobs → Type 0
IsJobTable = IsKeyed job_key

-- A count is zero exactly if it is not positive.
zero_of_ltb : (n : ℕ) (b : Bool) → ltb 0 n ≡ b → (n == 0) ≡ (if b then false else true)
zero_of_ltb n b h = ground arith

module _ (worker id : String) (lease now : ℕ) (t : Jobs) (j : RunJob) (k : IsJobTable t)
    (found : get_job id t ≡ some j) where
  -- A claim of a job that is queued, or whose lease has run out, gives the job to the worker.
  pub claim_job-granted :
      claimable now j ≡ true
      → let (claimed, t') = claim_job worker lease now id t in
        (claimed ≡ some (claim_row worker lease now j))
        × (get_job id t' ≡ some (claim_row worker lease now j))
  unfolding claim_job get_job
  claim_job-granted yes_claim =
      let self =
        find-update_self job_key (claim_row worker lease now) (unfold claim_row in λ x. refl) id
          (claimable now) t j found in
      let hits = zero_of_ltb _ _ (count_where-keyed job_key id (claimable now) t j k found) in
      ground (arith, self, hits)

  -- A claim of any other job changes nothing.
  pub claim_job-refused : claimable now j ≡ false → claim_job worker lease now id t ≡ (none, t)
  unfolding claim_job get_job
  claim_job-refused not_claim =
      let hits = zero_of_ltb _ _ (count_where-keyed job_key id (claimable now) t j k found) in
      let same =
        update_where-refused job_key id (claimable now) (claim_row worker lease now) t j k found
          not_claim in
      ground (arith, hits, same)

  -- A heartbeat of the worker that runs the job moves the end of its lease.
  pub heartbeat_job-granted :
      beats worker j ≡ true
      → let (beaten, t') = heartbeat_job worker lease now id t in
        (beaten ≡ some (heartbeat_row lease now j))
        × (get_job id t' ≡ some (heartbeat_row lease now j))
  unfolding heartbeat_job get_job
  heartbeat_job-granted yes_beat =
      let self =
        find-update_self job_key (heartbeat_row lease now) (unfold heartbeat_row in λ x. refl) id
          (beats worker) t j found in
      let hits = zero_of_ltb _ _ (count_where-keyed job_key id (beats worker) t j k found) in
      ground (arith, self, hits)

  -- A heartbeat of any other worker changes nothing.
  pub heartbeat_job-refused :
      beats worker j ≡ false → heartbeat_job worker lease now id t ≡ (none, t)
  unfolding heartbeat_job get_job
  heartbeat_job-refused not_beat =
      let hits = zero_of_ltb _ _ (count_where-keyed job_key id (beats worker) t j k found) in
      let same =
        update_where-refused job_key id (beats worker) (heartbeat_row lease now) t j k found
          not_beat in
      ground (arith, hits, same)
