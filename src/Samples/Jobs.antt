-- ===== src/Samples/Jobs.antt =====
-- The theorems on the table of jobs, on a table with one queued job.
use merge_mate.Base.{ℕ, String, ◌≡◌, refl, true, false, none, some, [], ◌∷◌, ◌⊎◌, arith, find}
use merge_mate.Domain.Status.{execute_run}
use merge_mate.Domain.Runs.{RunJob}
use merge_mate.Persistence.JobRepository.{
  Jobs, get_job, claim_job, heartbeat_job, ensure_queued_job, active_for, claim_row,
}
use merge_mate.Persistence.JobRepository.Leases.{IsJobTable}
use merge_mate.Persistence.JobRepository.Exclusion.{claim_job-exclusive}
use merge_mate.Persistence.JobRepository.Endings.{end_job, end_job-final, completing}
use merge_mate.Persistence.JobRepository.Active.{IsUnique}
use merge_mate.Persistence.JobRepository.Ensure.{ensure_idempotent}
use merge_mate.Persistence.JobRepository.Steps.{claimed, JobStep-IsUnique}
use merge_mate.Application.Worker.Heartbeats
use merge_mate.Application.Worker.Heartbeats.{Beat, heartbeat-exclusive}
use merge_mate.Samples.{job}

abbrev table : Jobs
table = job ∷ []

abbrev claimed_job : RunJob
claimed_job = record job { job_id = "j" }

job_found : get_job "j" table ≡ some job
unfolding get_job find
job_found = refl

table-IsJobTable : IsJobTable table
unfolding find
table-IsJobTable = (refl, tt)

table-IsUnique : IsUnique table
unfolding find
table-IsUnique = ((λ h. refl), tt)

claim_job-exclusive_example :
    claim_job "v" 30 20 "j" (claim_job "w" 30 10 "j" table).1
    ≡ (none, (claim_job "w" 30 10 "j" table).1)
claim_job-exclusive_example =
    claim_job-exclusive "w" "j" 30 10 table job table-IsJobTable job_found "v" 30 20 refl
      (omega arith)

abbrev taken : Jobs
unfolding claim_row
taken = claim_row "w" 30 10 job ∷ []

end_job-final_example :
    (claim_job "w" 30 20 "j" (end_job completing 10 "j" table)
      ≡ (none, end_job completing 10 "j" table))
    × (heartbeat_job "w" 30 20 "j" (end_job completing 10 "j" table)
        ≡ (none, end_job completing 10 "j" table))
end_job-final_example =
    end_job-final completing 10 "w" "j" 30 20 table job table-IsJobTable job_found

absent : get_job "n" table ≡ none
unfolding get_job find
absent = refl

ensure_idempotent_example :
    let (d, t') = ensure_queued_job "b" execute_run "n" 10 table in
    (j : RunJob) × ((d ≡ some (record { job = some j; created = true }))
      ⊎ (d ≡ some (record { job = some j; created = false })))
    × (active_for "b" execute_run j ≡ true)
    × ((job_id' : String) (now' : ℕ)
        → ensure_queued_job "b" execute_run job_id' now' t'
          ≡ (some (record { job = some j; created = false }), t'))
ensure_idempotent_example = ensure_idempotent "b" execute_run "n" 10 table table-IsUnique absent

JobStep-IsUnique_example : IsUnique (claim_job "w" 30 10 "j" table).1
JobStep-IsUnique_example =
    JobStep-IsUnique {t = table} {t' = (claim_job "w" 30 10 "j" table).1} (claimed "w" 30 10 "j")
      table-IsUnique

-- The table at the time of the claim, and 10 seconds after it.
abbrev beat : Beat
beat = record { jobs = table; now = 10; last = 10 }

abbrev claimed_table : Jobs
claimed_table = (claim_job "w" 30 10 "j" table).1

heartbeat-exclusive_example : claim_job "v" 30 20 "j" claimed_table ≡ (none, claimed_table)
heartbeat-exclusive_example =
    heartbeat-exclusive "w" "j" 30 10 beat job table-IsJobTable job_found refl (omega arith)
      (record { jobs = claimed_table; now = 20; last = 10 }) "v" 30
      (Heartbeats.goes_on Heartbeats.claimed (
        Heartbeats.passes (record { jobs = claimed_table; now = 10; last = 10 }) 20 (omega arith)
          (omega arith)))
