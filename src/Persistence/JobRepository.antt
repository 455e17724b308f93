-- ===== src/Persistence/JobRepository.antt =====
-- `SQLiteRunJobRepository` over the list of the rows of `run_jobs`. Besides its primary key the
-- table has the partial unique index of sqlite_schema.py on (run_id, job_type), which counts the
-- rows whose status is queued or running.
pub mod Active
pub mod Leases
pub mod Exclusion
pub mod Endings
pub mod Ensure
pub mod Steps
use merge_mate.Base.{
  ℕ, suc, ◌+◌, String, Bool, true, false, ◌&&◌, ◌||◌, Option, none, some, List, [], ◌∷◌, ◌++◌,
  str_eq, by_key, leb, ltb, if◌then◌else◌, find, count_where, update_where, select, ◌==◌,
}
use merge_mate.Domain.Status.{
  RunJobStatus, RunJobType, job_same, type_same, queued, running, completed, failed,
}
use merge_mate.Domain.Runs.{RunJob, QueuedRunJobDecision}

abbrev pub Jobs : Type 0
Jobs = List RunJob

abbrev pub job_key : RunJob → String
job_key j = j.job_id

-- `status IN ('queued', 'running')`
abbrev pub is_active : RunJobStatus → Bool
is_active s = job_same s queued || job_same s running

-- The active rows of one run and one type: a key of the unique index.
abbrev pub active_for : String → RunJobType → RunJob → Bool
active_for run type j = (str_eq j.run_id run && is_active j.status) && type_same j.job_type type

abbrev pub active_for_any : String → RunJob → Bool
active_for_any run j = str_eq j.run_id run && is_active j.status

unfoldable pub get_job : String → Jobs → Option RunJob
get_job id t = find (by_key job_key id) t

-- `ORDER BY queued_at DESC LIMIT 1`
unfoldable pub latest_queued : RunJob → Jobs → RunJob
latest_queued best [] = best
latest_queued best (j ∷ t) = latest_queued (if ltb best.queued_at j.queued_at then j else best) t

unfoldable pub first_of_latest : Jobs → Option RunJob
first_of_latest [] = none
first_of_latest (j ∷ t) = some (latest_queued j t)

unfoldable pub get_active_for_run : String → Option RunJobType → Jobs → Option RunJob
get_active_for_run run none t = first_of_latest (select (active_for_any run) t)
get_active_for_run run (some type) t = first_of_latest (select (active_for run type) t)

unfoldable pub new_job : String → String → RunJobType → ℕ → RunJob
new_job job_id run type now = record {
  job_id = job_id;
  run_id = run;
  job_type = type;
  status = queued;
  attempt_count = 0;
  lease_owner = none;
  lease_expires_at = none;
  last_heartbeat_at = none;
  error_text = none;
  queued_at = now;
  started_at = none;
  finished_at = none;
  updated_at = now;
}

-- The `INSERT`, `none` for an `IntegrityError` of the key or of the unique index.
unfoldable pub insert_job : RunJob → Jobs → Option Jobs
insert_job j t = elim (get_job j.job_id t) [
  | some _ ↦ none
  | none ↦ elim (find (active_for j.run_id j.job_type) t) [
    | some _ ↦ none
    | none ↦ some (t ++ j ∷ [])
  ]
]

-- `job_id` is the text of `uuid4`. `none` is the `IntegrityError` that is raised again.
unfoldable pub ensure_queued_job :
    String → RunJobType → String → ℕ → Jobs → Option QueuedRunJobDecision × Jobs
ensure_queued_job run type job_id now t = elim (insert_job (new_job job_id run type now) t) [
  | some t' ↦ (some (record { job = some (new_job job_id run type now); created = true }), t')
  | none ↦ elim (get_active_for_run run (some type) t) [
    | some j ↦ (some (record { job = some j; created = false }), t)
    | none ↦ (none, t)
  ]
]

-- `lease_expires_at IS NOT NULL AND lease_expires_at < ?`
abbrev pub expired : ℕ → Option ℕ → Bool
expired now none = false
expired now (some at) = ltb at now

abbrev pub claimable : ℕ → RunJob → Bool
claimable now j =
    job_same j.status queued || (job_same j.status running && expired now j.lease_expires_at)

abbrev pub coalesce : Option ℕ → ℕ → Option ℕ
coalesce none now = some now
coalesce (some t) now = some t

unfoldable pub claim_row : String → ℕ → ℕ → RunJob → RunJob
claim_row worker lease now j = record j {
  status = running;
  attempt_count = j.attempt_count + 1;
  lease_owner = some worker;
  lease_expires_at = some (now + lease);
  last_heartbeat_at = some now;
  started_at = coalesce j.started_at now;
  updated_at = now;
}

unfoldable pub claim_job : String → ℕ → ℕ → String → Jobs → Option RunJob × Jobs
claim_job worker lease now id t =
    let hit = λ (j : RunJob). by_key job_key id j && claimable now j in
    let t' = update_where hit (claim_row worker lease now) t in
    (if count_where hit t == 0 then none else get_job id t', t')

abbrev pub owned : String → RunJob → Bool
owned worker j = elim j.lease_owner [ none ↦ false | some w ↦ str_eq w worker ]

abbrev pub beats : String → RunJob → Bool
beats worker j = job_same j.status running && owned worker j

unfoldable pub heartbeat_row : ℕ → ℕ → RunJob → RunJob
heartbeat_row lease now j = record j {
  lease_expires_at = some (now + lease);
  last_heartbeat_at = some now;
  updated_at = now;
}

unfoldable pub heartbeat_job : String → ℕ → ℕ → String → Jobs → Option RunJob × Jobs
heartbeat_job worker lease now id t =
    let hit = λ (j : RunJob). by_key job_key id j && beats worker j in
    let t' = update_where hit (heartbeat_row lease now) t in
    (if count_where hit t == 0 then none else get_job id t', t')

unfoldable pub complete_row : ℕ → RunJob → RunJob
complete_row now j = record j {
  status = completed;
  lease_owner = none;
  lease_expires_at = none;
  last_heartbeat_at = some now;
  finished_at = some now;
  updated_at = now;
  error_text = none;
}

pub finish_job : RunJobStatus → (RunJob → RunJob) → RunJob → String → Jobs → Option RunJob × Jobs
finish_job goal row j id t =
    let t' = update_where (by_key job_key id) row t in
    if job_same j.status goal then (some j, t) else (get_job id t', t')

unfoldable pub complete_job : ℕ → String → Jobs → Option RunJob × Jobs
unfolding finish_job
complete_job now id t = elim (get_job id t) [
  | none ↦ (none, t)
  | some j ↦ finish_job completed (complete_row now) j id t
]

unfoldable pub fail_row : String → ℕ → RunJob → RunJob
fail_row error now j = record j {
  status = failed;
  lease_owner = none;
  lease_expires_at = none;
  last_heartbeat_at = some now;
  error_text = some error;
  finished_at = some now;
  updated_at = now;
}

unfoldable pub fail_job : String → ℕ → String → Jobs → Option RunJob × Jobs
unfolding finish_job
fail_job error now id t = elim (get_job id t) [
  | none ↦ (none, t)
  | some j ↦ finish_job failed (fail_row error now) j id t
]
