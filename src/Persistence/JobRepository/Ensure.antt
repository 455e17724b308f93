-- ===== src/Persistence/JobRepository/Ensure.antt =====
-- The operations of the job repository keep the unique index, and what `ensure_queued_job` does
-- under it.
use mathlib.Core.Path.{subst, subst₂}
use mathlib.Core.Option.{some-injective}
use merge_mate.Base.{
  ℕ, String, ◌≡◌, ◌⊎◌, refl, ◌∙◌, Bool, true, false, none, some, [], ◌∷◌, ◌++◌, arith, eq_iff,
  eq_refl, Bool-cases, Option-cases, inl, inr, find, find_holds, find-append, select,
}
use merge_mate.Domain.Status.{RunJobType, RunJobStatus, job_same}
use merge_mate.Domain.Runs.{RunJob}
use merge_mate.Persistence.JobRepository.{
  Jobs, is_active, active_for, get_job, new_job, insert_job, ensure_queued_job, get_active_for_run,
  first_of_latest, latest_queued, claim_row, claimable, heartbeat_row, finish_job, complete_row,
  fail_row, complete_job, fail_job,
}
use merge_mate.Persistence.JobRepository.Active.{
  IsUnique, IsQuiet, find-cons, IsUnique-update_where, IsUnique-snoc,
}
use merge_mate.Persistence.JobRepository.Endings.{Ending, completing, failing, end_job, ended_row}

pub claim-IsQuiet :
    (worker : String) (lease now : ℕ) (j : RunJob)
    → claimable now j ≡ true
    → IsQuiet (claim_row worker lease now) j
unfolding claim_row
claim-IsQuiet worker lease now j h = (refl, refl, λ a. ground arith)

pub heartbeat-IsQuiet : (lease now : ℕ) (j : RunJob) → IsQuiet (heartbeat_row lease now) j
unfolding heartbeat_row
heartbeat-IsQuiet lease now j = (refl, refl, λ a. a)

pub end-IsQuiet : (e : Ending) (now : ℕ) (j : RunJob) → IsQuiet (ended_row e now) j
unfolding complete_row fail_row
end-IsQuiet completing now j = (refl, refl, λ a. cc a)
end-IsQuiet (failing error) now j = (refl, refl, λ a. cc a)

pub end_job-missing :
    (e : Ending) (now : ℕ) (id : String) (t : Jobs) → get_job id t ≡ none → end_job e now id t ≡ t
unfolding end_job complete_job fail_job
end_job-missing completing now id t h = rw (h, end_job, complete_job)
end_job-missing (failing error) now id t h = rw (h, end_job, fail_job)

pub finish_job-IsUnique :
    (goal : RunJobStatus) (row : RunJob → RunJob) (quiet : (j : RunJob) → IsQuiet row j)
    (id : String) (t : Jobs) (j : RunJob)
    → IsUnique t
    → IsUnique (finish_job goal row j id t).1
unfolding finish_job
finish_job-IsUnique goal row quiet id t j u = elim (Bool-cases (job_same j.status goal)) [
  | inl e ↦ rw e u
  | inr e ↦ rw e (IsUnique-update_where _ row (λ x _. quiet x) t u)
]

module _ (j : RunJob) (t : Jobs) where
  insert_job-free :
      get_job j.job_id t ≡ none
      → find (active_for j.run_id j.job_type) t ≡ none
      → insert_job j t ≡ some (t ++ j ∷ [])
  unfolding insert_job
  insert_job-free a b = rw (a, insert_job) (rw b)

  insert_job-taken :
      (x : RunJob) → find (active_for j.run_id j.job_type) t ≡ some x → insert_job j t ≡ none
  unfolding insert_job
  insert_job-taken x b = elim (Option-cases (get_job j.job_id t)) [
    | inl a ↦ rw (a, insert_job) (rw b)
    | inr (y, a) ↦ rw (a, insert_job)
  ]

  insert_job-IsUnique : (t' : Jobs) → IsUnique t → insert_job j t ≡ some t' → IsUnique t'
  unfolding insert_job
  insert_job-IsUnique t' u h = elim (Option-cases (get_job j.job_id t)) [
    | inl a ↦ elim (Option-cases (find (active_for j.run_id j.job_type) t)) [
      | inl b ↦ subst IsUnique (cc (insert_job-free a b)) (IsUnique-snoc j t b u)
      | inr (x, b) ↦ cc (insert_job-taken x b)
    ]
    | inr (y, a) ↦ let gone : insert_job j t ≡ none = rw (a, insert_job) in cc gone
  ]

module _ (run : String) (type : RunJobType) (job_id : String) (now : ℕ) (t : Jobs) where
  pub ensure-IsUnique : IsUnique t → IsUnique (ensure_queued_job run type job_id now t).1
  unfolding ensure_queued_job
  ensure-IsUnique u = elim (Option-cases (insert_job (new_job job_id run type now) t)) [
    | inl a ↦
        rw (a, ensure_queued_job)
          (elim (Option-cases (get_active_for_run run (some type) t)) [
            | inl b ↦ rw b u
            | inr (x, b) ↦ rw b u
          ])
    | inr (t', a) ↦
        rw (a, ensure_queued_job) (insert_job-IsUnique (new_job job_id run type now) t t' u a)
  ]

  -- With no active job `ensure_queued_job` adds the new one.
  pub ensure-created :
      get_job job_id t ≡ none
      → find (active_for run type) t ≡ none
      → let j = new_job job_id run type now in
        ensure_queued_job run type job_id now t
        ≡ (some (record { job = some j; created = true }), t ++ j ∷ [])
  unfolding ensure_queued_job
  ensure-created a b = rw (
    insert_job-free (new_job job_id run type now) t (unfold new_job in a) (unfold new_job in b),
    ensure_queued_job,
  )

select-absent : (p : RunJob → Bool) (t : Jobs) → find p t ≡ none → select p t ≡ []
unfolding select
select-absent p [] h = refl
select-absent p (x ∷ t) h = let (out, rest) = find-cons p x t h in rw out (select-absent p t rest)

active_for-key :
    (run : String) (type : RunJobType) (x : RunJob)
    → active_for run type x ≡ true
    → (x.run_id ≡ run) × (x.job_type ≡ type) × (is_active x.status ≡ true)
active_for-key run type x h = ground (arith, eq_iff x.run_id run)

select_unique :
    (run : String) (type : RunJobType) (t : Jobs) (j : RunJob)
    → IsUnique t
    → find (active_for run type) t ≡ some j
    → select (active_for run type) t ≡ j ∷ []
unfolding select find
select_unique run type [] j u h = cc
select_unique run type (x ∷ t) j u h = elim (Bool-cases (active_for run type x)) [
  | inl e ↦
      let (same_run, same_type, on) = active_for-key run type x e in
      let rest : find (active_for run type) t ≡ none =
        subst₂ (λ r y. find (active_for r y) t ≡ none) same_run same_type (u.0 on) in
      let same : x ≡ j = some-injective x j (rw e at h) in
      rw (e, select-absent (active_for run type) t rest, same)
  | inr e ↦ rw e (select_unique run type t j u.1 (rw e at h))
]

get_active_for_run_unique :
    (run : String) (type : RunJobType) (t : Jobs) (j : RunJob)
    → IsUnique t
    → find (active_for run type) t ≡ some j
    → get_active_for_run run (some type) t ≡ some j
unfolding get_active_for_run first_of_latest latest_queued
get_active_for_run_unique run type t j u h = rw (select_unique run type t j u h)

module _ (run : String) (type : RunJobType) (job_id : String) (now : ℕ) (t : Jobs)
    (u : IsUnique t) where
  -- With an active job `ensure_queued_job` returns that job and changes nothing.
  pub ensure-existing :
      (j : RunJob)
      → find (active_for run type) t ≡ some j
      → ensure_queued_job run type job_id now t
        ≡ (some (record { job = some j; created = false }), t)
  unfolding ensure_queued_job
  ensure-existing j h =
      rw
        (
          insert_job-taken (new_job job_id run type now) t j (unfold new_job in h),
          ensure_queued_job,
        )
        (rw (get_active_for_run_unique run type t j u h))

find-new :
    (run : String) (type : RunJobType) (job_id : String) (now : ℕ) (t : Jobs)
    → find (active_for run type) t ≡ none
    → find (active_for run type) (t ++ new_job job_id run type now ∷ [])
      ≡ some (new_job job_id run type now)
unfolding find new_job
find-new run type job_id now t h =
    find-append (active_for run type) t _ ∙ rw h (ground (arith, eq_refl run))

-- Afterwards the table has one active job of the run and type, the one that is returned.
pub ensure-single :
    (run : String) (type : RunJobType) (job_id : String) (now : ℕ) (t : Jobs)
    → IsUnique t
    → get_job job_id t ≡ none
    → let (d, t') = ensure_queued_job run type job_id now t in
      (j : RunJob) × ((d ≡ some (record { job = some j; created = true }))
        ⊎ (d ≡ some (record { job = some j; created = false })))
      × (select (active_for run type) t' ≡ j ∷ [])
ensure-single run type job_id now t u fresh = elim (Option-cases (find (active_for run type) t)) [
  | inl h ↦
      let j = new_job job_id run type now in
      let there = find-new run type job_id now t h in
      let u' = IsUnique-snoc j t (unfold new_job in h) u in
      rw (ensure-created run type job_id now t fresh h)
        (j, inl refl, select_unique run type (t ++ j ∷ []) j u' there)
  | inr (j, h) ↦
      rw (ensure-existing run type job_id now t u j h) (j, inr refl, select_unique run type t j u h)
]

-- Under a free id and with the unique index, ensure_queued_job returns an active job of the run
-- and type, and every later call for them returns the same job and changes nothing.
pub ensure_idempotent :
    (run : String) (type : RunJobType) (job_id : String) (now : ℕ) (t : Jobs)
    → IsUnique t
    → get_job job_id t ≡ none
    → let (d, t') = ensure_queued_job run type job_id now t in
      (j : RunJob) × ((d ≡ some (record { job = some j; created = true }))
        ⊎ (d ≡ some (record { job = some j; created = false })))
      × (active_for run type j ≡ true)
      × ((job_id' : String) (now' : ℕ)
          → ensure_queued_job run type job_id' now' t'
            ≡ (some (record { job = some j; created = false }), t'))
ensure_idempotent run type job_id now t u fresh =
    elim (Option-cases (find (active_for run type) t)) [
      | inl h ↦
          let j = new_job job_id run type now in
          let there = find-new run type job_id now t h in
          let u' = IsUnique-snoc j t (unfold new_job in h) u in
          rw (ensure-created run type job_id now t fresh h) (
            j,
            inl refl,
            find_holds (active_for run type) (t ++ j ∷ []) j there,
            λ job_id' now'. ensure-existing run type job_id' now' (t ++ j ∷ []) u' j there,
          )
      | inr (j, h) ↦ rw (ensure-existing run type job_id now t u j h) (
        j,
        inr refl,
        find_holds (active_for run type) t j h,
        λ job_id' now'. ensure-existing run type job_id' now' t u j h,
      )
    ]
