-- ===== src/Persistence/RunRepository/Writes.antt =====
-- What the writes of the run repository do: each one changes the row of its run, as its
-- statement's `WHERE` says, and no other row.
use merge_mate.Base.{
  ℕ, String, ◌≡◌, refl, ap, ◌∙◌, sym, inl, inr, Bool, false, ◌&&◌, not, Option, Option-cases, none,
  some, arith, if◌then◌else◌, IsKeyed, find-update_self, find-update_key, count_where-keyed,
  update_where-refused,
}
use mathlib.Core.Option.{some-injective}
use merge_mate.Domain.Status.{same, same_refl}
use merge_mate.Domain.Runs.{AgentRun, Decision}
use merge_mate.Persistence.RunRepository.{
  Table, get, StatusUpdate, expected, status_row, try_update_status, update_status,
  update_status_of, approve, approve_row, approve_of, approvable, update_plan, plan_row, Artifacts,
  artifact_row, save_artifacts,
}

abbrev pub run_key : AgentRun → String
run_key r = r.run_id

abbrev pub IsRunTable : Table → Type 0
IsRunTable = IsKeyed run_key

module _ (u : StatusUpdate) (now : ℕ) (id : String) (t : Table) (r : AgentRun) where
  found : get id t ≡ some r → try_update_status u now id t ≡ update_status_of r u now id t
  unfolding try_update_status
  found h = rw (h, try_update_status)

  -- On a run of a table with unique ids, try_update_status writes the row if the run has the
  -- expected status or none is asked, and leaves it otherwise; the decision says which and holds
  -- the row after the call.
  pub try_update_status_cas :
      IsRunTable t
      → get id t ≡ some r
      → let (d, t') = try_update_status u now id t in
        let passes = expected u.expected_current_status r in
        (get id t' ≡ some (if passes then status_row u now r r else r))
        × (d.run ≡ get id t')
        × (d.transitioned ≡ passes)
  unfolding update_status_of get
  try_update_status_cas k h = rw (found h) (
    find-update_self run_key (status_row u now r) (unfold status_row in λ x. refl) id
        (expected u.expected_current_status) t r h,
    refl,
    count_where-keyed run_key id (expected u.expected_current_status) t r k h,
  )

  -- A refused update changes nothing at all.
  pub try_update_status-refused :
      IsRunTable t
      → get id t ≡ some r
      → expected u.expected_current_status r ≡ false
      → try_update_status u now id t ≡ (record { run = some r; transitioned = false }, t)
  unfolding update_status_of get
  try_update_status-refused k h held =
      let q = expected u.expected_current_status in
      let kept = update_where-refused run_key id q (status_row u now r) t r k h held in
      let none_hit = count_where-keyed run_key id q t r k h in
      rw (found h) (rw kept (rw (h, none_hit, held) refl))

abbrev without_flag : Decision × Table → Option AgentRun × Table
without_flag (d, t) = (d.run, t)

-- A run that `update_status` returns is the row of the table after the call, with the new status.
pub update_status-get :
    (u : StatusUpdate) (now : ℕ) (id : String) (t : Table) (r : AgentRun)
    → u.expected_current_status ≡ none
    → (update_status u now id t).0 ≡ some r
    → (get id (update_status u now id t).1 ≡ some r) × (r.status ≡ u.status)
unfolding update_status try_update_status update_status_of get status_row
update_status-get u now id t r free e = elim (Option-cases (get id t)) [
  | inl absent ↦ cc (rw (absent, update_status, try_update_status) at e)
  | inr (x, present) ↦
      let step : update_status u now id t ≡ without_flag (update_status_of x u now id t) =
        rw (update_status, found u now id t x present) refl in
      let after : get id (update_status u now id t).1 ≡ get id (update_status_of x u now id t).1 =
        ap (λ (p : Option AgentRun × Table). get id p.1) step in
      let row : get id (update_status u now id t).1 ≡ some (status_row u now x x) =
        after
        ∙ (find-update_self run_key (status_row u now x) (λ y. refl) id
              (expected u.expected_current_status) t x present
            ∙ rw free refl) in
      let same_row : status_row u now x x ≡ r =
        some-injective _ _
          (sym row ∙ (after ∙ (sym (ap (λ (p : Option AgentRun × Table). p.0) step) ∙ e))) in
      (row ∙ ap some same_row, ap (λ (y : AgentRun). y.status) (sym same_row))
]

module _ (now : ℕ) (id : String) (t : Table) (r : AgentRun) where
  approve_found : get id t ≡ some r → approve now id t ≡ approve_of r now id t
  unfolding approve
  approve_found h = rw (h, approve)

  -- The runs that `approve` changes.
  abbrev pub accepted : Bool
  accepted = not r.approved && approvable r.status

  -- On a run of a table with unique ids, the repository's approve writes the row if the run is not
  -- approved and waits for its confirmation or is queued, and leaves it otherwise; the decision
  -- says which and holds the row after the call.
  pub approve_lem :
      IsRunTable t
      → get id t ≡ some r
      → let (d, t') = approve now id t in
        (get id t' ≡ some (if accepted then approve_row now r r else r))
        × (d.run ≡ get id t')
        × (d.transitioned ≡ accepted)
  unfolding approve_of get
  approve_lem k h =
      let q : AgentRun → Bool = λ x. not x.approved && same x.status r.status in
      let self =
        find-update_self run_key (approve_row now r) (unfold approve_row in λ x. refl) id q t r h in
      rw (approve_found h)
        (ground (arith, self, count_where-keyed run_key id q t r k h, same_refl r.status, h))

module _ (now : ℕ) (id : String) (t : Table) (r : AgentRun) where
  -- `update_plan` sets the plan of a run in any status.
  pub update_plan_lem :
      (plan : String) (prompt current_stage : Option String)
      → get id t ≡ some r
      → let (run, t') = update_plan plan prompt current_stage now id t in
        (get id t' ≡ some (plan_row plan prompt current_stage now r r)) × (run ≡ get id t')
  unfolding get update_plan
  update_plan_lem plan prompt current_stage h =
      rw (h, update_plan)
        (
          find-update_key run_key (plan_row plan prompt current_stage now r)
              (unfold plan_row in λ x. refl) id t r h,
          refl,
        )

  -- `save_artifacts` keeps what it is not given, and the status, the approval and the plan.
  pub save_artifacts_lem :
      (a : Artifacts)
      → get id t ≡ some r
      → let (run, t') = save_artifacts a now id t in
        (get id t' ≡ some (artifact_row a now r r)) × (run ≡ get id t')
  unfolding get save_artifacts
  save_artifacts_lem a h =
      rw (h, save_artifacts)
        (
          find-update_key run_key (artifact_row a now r) (unfold artifact_row in λ x. refl) id t r
              h,
          refl,
        )
