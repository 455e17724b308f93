-- ===== src/Persistence/JobRepository/Steps.antt =====
-- The operations of the job repository as steps, and the unique index of the active jobs under them.
use merge_mate.Base.{ℕ, String, arith, Option-cases, inl, inr}
use merge_mate.Domain.Status.{RunJobType}
use merge_mate.Persistence.JobRepository.{
  Jobs, get_job, ensure_queued_job, claim_job, claim_row, heartbeat_job, heartbeat_row,
}
use merge_mate.Persistence.JobRepository.Active.{IsUnique, IsUnique-update_where}
use merge_mate.Persistence.JobRepository.Endings.{
  Ending, end_job, end_job-found, ended_row, goal_of,
}
use merge_mate.Persistence.JobRepository.Ensure.{
  finish_job-IsUnique, ensure-IsUnique, end_job-missing, claim-IsQuiet, heartbeat-IsQuiet,
  end-IsQuiet,
}

-- The tables that the operations of the repository leave behind.
pub data JobStep (t : Jobs) : Jobs → Type 0 where
  ensured :
      (run : String) (type : RunJobType) (job_id : String) (now : ℕ)
      → JobStep t (ensure_queued_job run type job_id now t).1
  claimed :
      (worker : String) (lease now : ℕ) (id : String)
      → JobStep t (claim_job worker lease now id t).1
  beaten :
      (worker : String) (lease now : ℕ) (id : String)
      → JobStep t (heartbeat_job worker lease now id t).1
  ended : (e : Ending) (now : ℕ) (id : String) → JobStep t (end_job e now id t)

end-IsUnique :
    (e : Ending) (now : ℕ) (id : String) (t : Jobs) → IsUnique t → IsUnique (end_job e now id t)
end-IsUnique e now id t u = elim (Option-cases (get_job id t)) [
  | inl h ↦ rw (end_job-missing e now id t h) u
  | inr (j, h) ↦
      rw (end_job-found e now id t j h)
        (finish_job-IsUnique (goal_of e) (ended_row e now) (end-IsQuiet e now) id t j u)
]

-- No operation of the job repository (ensure, claim, heartbeat, complete, fail) gives a run two
-- active jobs of one type.
pub JobStep-IsUnique : {t t' : Jobs} → JobStep t t' → IsUnique t → IsUnique t'
unfolding claim_job heartbeat_job
JobStep-IsUnique {t} (ensured run type job_id now) u = ensure-IsUnique run type job_id now t u
JobStep-IsUnique {t} (claimed worker lease now id) u =
    IsUnique-update_where _ (claim_row worker lease now)
      (λ j h. claim-IsQuiet worker lease now j (ground arith)) t u
JobStep-IsUnique {t} (beaten worker lease now id) u =
    IsUnique-update_where _ (heartbeat_row lease now) (λ j _. heartbeat-IsQuiet lease now j) t u
JobStep-IsUnique {t} (ended e now id) u = end-IsUnique e now id t u
