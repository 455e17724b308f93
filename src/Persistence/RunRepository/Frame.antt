-- ===== src/Persistence/RunRepository/Frame.antt =====
-- The writes on one run as a family, and what they all leave alone: the rows of other runs, and
-- the key of the table.
use merge_mate.Base.{
  ℕ, String, ◌≡◌, refl, inl, inr, Bool, false, ◌&&◌, not, Option, Option-cases,
  IsKeyed-update_where, arith, str_eq, find-update_other, find-update_key_other, update_where,
  Bool-cases, ◌||◌,
}
use merge_mate.Domain.Status.{same}
use merge_mate.Domain.Runs.{AgentRun}
use merge_mate.Persistence.RunRepository.{
  Table, get, StatusUpdate, status_row, try_update_status, update_status_of, approve, approve_row,
  approve_of, update_plan, plan_row, Artifacts, artifact_row, save_artifacts, approvable,
}
use merge_mate.Persistence.RunRepository.Writes.{run_key, IsRunTable}

-- The tables that the writes on the run `id` can leave behind.
pub data Written (id : String) (t : Table) : Table → Type 0 where
  by_status : (u : StatusUpdate) (now : ℕ) → Written id t (try_update_status u now id t).1
  by_approval : (now : ℕ) → Written id t (approve now id t).1
  by_plan :
      (plan : String) (prompt current_stage : Option String) (now : ℕ)
      → Written id t (update_plan plan prompt current_stage now id t).1
  by_artifacts : (a : Artifacts) (now : ℕ) → Written id t (save_artifacts a now id t).1

module _ (id j : String) (t : Table) (other : str_eq id j ≡ false) where
  status_frame : (u : StatusUpdate) (now : ℕ) → get j (try_update_status u now id t).1 ≡ get j t
  unfolding try_update_status
  status_frame u now = elim (Option-cases (get id t)) [
    | inl e ↦ rw (e, try_update_status)
    | inr (r, e) ↦
        rw (e, try_update_status)
          (unfold update_status_of get in
            find-update_other run_key (status_row u now r) (unfold status_row in λ x. refl) id j _ t
              other)
  ]

  approve_frame : (now : ℕ) → get j (approve now id t).1 ≡ get j t
  unfolding approve approve_of get
  approve_frame now = elim (Option-cases (get id t)) [
    | inl e ↦ rw (e, approve)
    | inr (r, e) ↦
        let moved =
          find-update_other run_key (approve_row now r) (unfold approve_row in λ x. refl) id j
            (λ (x : AgentRun). not x.approved && same x.status r.status) t other in
        rw (e, approve) (ground (arith, moved))
  ]

  plan_frame :
      (plan : String) (prompt current_stage : Option String) (now : ℕ)
      → get j (update_plan plan prompt current_stage now id t).1 ≡ get j t
  unfolding get update_plan
  plan_frame plan prompt current_stage now = elim (Option-cases (get id t)) [
    | inl e ↦ rw (e, update_plan)
    | inr (r, e) ↦
        rw (e, update_plan)
          (find-update_key_other run_key (plan_row plan prompt current_stage now r)
            (unfold plan_row in λ x. refl) id j t other)
  ]

  artifacts_frame : (a : Artifacts) (now : ℕ) → get j (save_artifacts a now id t).1 ≡ get j t
  unfolding get save_artifacts
  artifacts_frame a now = elim (Option-cases (get id t)) [
    | inl e ↦ rw (e, save_artifacts)
    | inr (r, e) ↦
        rw (e, save_artifacts)
          (find-update_key_other run_key (artifact_row a now r) (unfold artifact_row in λ x. refl)
            id j t other)
  ]

-- A write of one run (status, approval, plan, artifacts) leaves the runs with other ids as they
-- are.
pub Written-frame :
    (id j : String) (t t' : Table) → Written id t t' → str_eq id j ≡ false → get j t' ≡ get j t
Written-frame id j t t' (by_status u now) other = status_frame id j t other u now
Written-frame id j t t' (by_approval now) other = approve_frame id j t other now
Written-frame id j t t' (by_plan p q s now) other = plan_frame id j t other p q s now
Written-frame id j t t' (by_artifacts a now) other = artifacts_frame id j t other a now

module _ (id : String) (t : Table) (k : IsRunTable t) where
  update_keeps :
      (h : AgentRun → Bool) (f : AgentRun → AgentRun)
      → ((r : AgentRun) → (f r).run_id ≡ r.run_id)
      → IsRunTable (update_where h f t)
  update_keeps h f keep = IsKeyed-update_where run_key h f keep t k

  status_keeps : (u : StatusUpdate) (now : ℕ) → IsRunTable (try_update_status u now id t).1
  unfolding try_update_status update_status_of
  status_keeps u now = elim (Option-cases (get id t)) [
    | inl e ↦ rw (e, try_update_status) k
    | inr (r, e) ↦
        rw (e, try_update_status)
          (update_keeps _ (status_row u now r) (unfold status_row in λ x. refl))
  ]

  approve_keeps : (now : ℕ) → IsRunTable (approve now id t).1
  unfolding approve approve_of
  approve_keeps now = elim (Option-cases (get id t)) [
    | inl e ↦ rw (e, approve) k
    | inr (r, e) ↦
        rw (e, approve)
          (elim (Bool-cases (r.approved || not (approvable r.status))) [
            | inl b ↦ rw b k
            | inr b ↦ rw b (update_keeps _ (approve_row now r) (unfold approve_row in λ x. refl))
          ])
  ]

  plan_keeps :
      (plan : String) (prompt current_stage : Option String) (now : ℕ)
      → IsRunTable (update_plan plan prompt current_stage now id t).1
  unfolding update_plan
  plan_keeps plan prompt current_stage now = elim (Option-cases (get id t)) [
    | inl e ↦ rw (e, update_plan) k
    | inr (r, e) ↦
        rw (e, update_plan)
          (update_keeps _ (plan_row plan prompt current_stage now r) (unfold plan_row in λ x. refl))
  ]

  artifacts_keep : (a : Artifacts) (now : ℕ) → IsRunTable (save_artifacts a now id t).1
  unfolding save_artifacts
  artifacts_keep a now = elim (Option-cases (get id t)) [
    | inl e ↦ rw (e, save_artifacts) k
    | inr (r, e) ↦
        rw (e, save_artifacts)
          (update_keeps _ (artifact_row a now r) (unfold artifact_row in λ x. refl))
  ]

-- A write of one run (status, approval, plan, artifacts) keeps the ids of the table unique.
pub Written-IsRunTable :
    (id : String) (t t' : Table) → Written id t t' → IsRunTable t → IsRunTable t'
Written-IsRunTable id t t' (by_status u now) k = status_keeps id t k u now
Written-IsRunTable id t t' (by_approval now) k = approve_keeps id t k now
Written-IsRunTable id t t' (by_plan p q s now) k = plan_keeps id t k p q s now
Written-IsRunTable id t t' (by_artifacts a now) k = artifacts_keep id t k a now
