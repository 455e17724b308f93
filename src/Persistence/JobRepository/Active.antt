-- ===== src/Persistence/JobRepository/Active.antt =====
-- At most one job of a run and a type is active: the unique index of the table, which no
-- operation of the repository breaks, and what it means for `ensure_queued_job`.
use merge_mate.Base.{
  String, ◌≡◌, refl, ◌∙◌, Bool, true, false, none, [], ◌∷◌, ◌++◌, arith, eq_iff, Bool-cases, inl,
  inr, find, find-append, update_where,
}
use merge_mate.Domain.Status.{RunJobType}
use merge_mate.Domain.Runs.{RunJob}
use merge_mate.Persistence.JobRepository.{Jobs, is_active, active_for}

-- The unique index on (run_id, job_type) of the active rows.
abbrev pub IsUnique : Jobs → Type 0
IsUnique [] = Unit
IsUnique (j ∷ t) =
    (is_active j.status ≡ true → find (active_for j.run_id j.job_type) t ≡ none) × IsUnique t

-- A change of a row that moves no job into another key of the index and activates none.
abbrev pub IsQuiet : (RunJob → RunJob) → RunJob → Type 0
IsQuiet f j =
    ((f j).run_id ≡ j.run_id)
    × ((f j).job_type ≡ j.job_type)
    × (is_active (f j).status ≡ true → is_active j.status ≡ true)

quiet-active_for :
    (f : RunJob → RunJob) (run : String) (type : RunJobType) (j : RunJob)
    → IsQuiet f j
    → active_for run type j ≡ false
    → active_for run type (f j) ≡ false
quiet-active_for f run type j q h = ground arith

pub find-cons :
    (p : RunJob → Bool) (j : RunJob) (t : Jobs)
    → find p (j ∷ t) ≡ none
    → (p j ≡ false) × (find p t ≡ none)
unfolding find
find-cons p j t h = elim (Bool-cases (p j)) [ inl e ↦ cc (rw e at h) | inr e ↦ (e, rw e at h) ]

pub none-cons :
    (p : RunJob → Bool) (j : RunJob) (t : Jobs)
    → p j ≡ false
    → find p t ≡ none
    → find p (j ∷ t) ≡ none
unfolding find
none-cons p j t h rest = rw h rest

module _ (hit : RunJob → Bool) (f : RunJob → RunJob)
    (quiet : (j : RunJob) → hit j ≡ true → IsQuiet f j) where
  find-quiet :
      (run : String) (type : RunJobType) (t : Jobs)
      → find (active_for run type) t ≡ none
      → find (active_for run type) (update_where hit f t) ≡ none
  unfolding update_where
  find-quiet run type [] h = h
  find-quiet run type (j ∷ t) h =
      let p = active_for run type in
      let (out, rest) = find-cons p j t h in
      elim (Bool-cases (hit j)) [
        | inl e ↦ rw e (
            none-cons p (f j) _ (quiet-active_for f run type j (quiet j e) out)
              (find-quiet run type t rest))
        | inr e ↦ rw e (none-cons p j _ out (find-quiet run type t rest))
      ]

  pub IsUnique-update_where : (t : Jobs) → IsUnique t → IsUnique (update_where hit f t)
  unfolding update_where
  IsUnique-update_where [] u = tt
  IsUnique-update_where (j ∷ t) u = elim (Bool-cases (hit j)) [
    | inl e ↦ rw e (
      (λ a.
          let (run, type, back) = quiet j e in
          rw (run, type) (find-quiet j.run_id j.job_type t (u.0 (back a)))),
      IsUnique-update_where t u.1,
    )
    | inr e ↦ rw e ((λ a. find-quiet j.run_id j.job_type t (u.0 a)), IsUnique-update_where t u.1)
  ]

pub IsUnique-snoc :
    (j : RunJob) (t : Jobs)
    → find (active_for j.run_id j.job_type) t ≡ none
    → IsUnique t
    → IsUnique (t ++ j ∷ [])
unfolding find
IsUnique-snoc j [] h u = ((λ a. refl), tt)
IsUnique-snoc j (x ∷ t) h u =
    let (out, rest) = find-cons (active_for j.run_id j.job_type) x t h in
    (
      (λ a.
          find-append (active_for x.run_id x.job_type) t (j ∷ [])
          ∙ rw (u.0 a) (ground (arith, eq_iff x.run_id j.run_id, eq_iff j.run_id x.run_id))),
      IsUnique-snoc j t rest u.1,
    )
