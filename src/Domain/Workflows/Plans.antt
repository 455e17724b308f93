-- ===== src/Domain/Workflows/Plans.antt =====
-- src/mergemate/application/services/workflow_service.py, `build_execution_plan`, and the
-- constructors of the plans in application/execution_plan.py.
use merge_mate.Base.{
  ℕ, ◌<◌, String, ◌≡◌, refl, ◌++◌, Bool-cases, true, Option, none, some, [], ◌∷◌, str_eq, ltb,
  if◌then◌else◌, arith, Option-cases, inl, inr, eq_refl,
}
use mathlib.Core.Option.{some-injective}
use mathlib.Core.Path.{subst}
use merge_mate.World.{Outcome, ok, raised, stage_execution, value_error}
use merge_mate.Domain.Workflows.{
  WorkflowName, WorkflowDefinition, Registry, get_workflow, register_workflow, workflow_value,
  resolve_workflow_name, uses_multi_stage_delivery, definition_of,
}

pub data Plan : Type 0 where
  direct : Plan
  multi_stage : ℕ → Option WorkflowDefinition → Plan

-- `MultiStageExecutionPlan.__init__`
unfoldable pub multi_stage_plan : ℕ → Option WorkflowDefinition → Outcome Plan
multi_stage_plan max d =
    if ltb max 1
    then raised (record { kind = stage_execution; text = "max_iterations must be at least 1" })
    else ok (multi_stage max d)

-- `WorkflowName(workflow)` raises a ValueError for a text that is no member.
unfoldable pub build_execution_plan : Registry → ℕ → String → Outcome Plan
unfolding multi_stage_plan
build_execution_plan r max t =
    if uses_multi_stage_delivery r t
    then elim (resolve_workflow_name t) [
      | some n ↦ multi_stage_plan max (definition_of r n)
      | none ↦ raised (record { kind = value_error; text = t })
    ]
    else ok direct

resolve-value : (n : WorkflowName) → resolve_workflow_name (workflow_value n) ≡ some n
unfolding resolve_workflow_name workflow_value
resolve-value WorkflowName.planning = refl
resolve-value _ = refl

-- With at least one iteration, build_execution_plan gives a member of the enumeration the multi-
-- stage plan of the stages registered under its name, and the direct plan if there are none.
pub build-registered :
    (r : Registry) (max : ℕ) (n : WorkflowName)
    → 0 < max
    → build_execution_plan r max (workflow_value n) ≡ elim (get_workflow (workflow_value n) r) [
      | none ↦ ok direct
      | some d ↦ ok (multi_stage max (some d))
    ]
unfolding definition_of multi_stage_plan build_execution_plan get_workflow uses_multi_stage_delivery
build-registered r max n h = elim (Option-cases (get_workflow (workflow_value n) r)) [
  | inl e ↦ rw (build_execution_plan, uses_multi_stage_delivery, resolve-value n) (rw e refl)
  | inr (d, e) ↦
      rw (build_execution_plan, uses_multi_stage_delivery, resolve-value n) (rw e (ground arith))
]

get_workflow-append :
    (name : String) (d : WorkflowDefinition) (r : Registry)
    → get_workflow name r ≡ none
    → get_workflow name (r ++ (name, d) ∷ []) ≡ some d
unfolding get_workflow
get_workflow-append name d [] e = rw (eq_refl name) refl
get_workflow-append name d ((k, x) ∷ r) e = elim (Bool-cases (str_eq k name)) [
  | inl y ↦ cc (rw y at e)
  | inr n ↦ rw n (get_workflow-append name d r (rw n at e))
]

get_workflow-registered :
    (name : String) (d : WorkflowDefinition) (r r' : Registry)
    → register_workflow name d r ≡ some r'
    → get_workflow name r' ≡ some d
unfolding register_workflow
get_workflow-registered name d r r' e = elim (Option-cases (get_workflow name r)) [
  | inl absent ↦
      let same : (r ++ (name, d) ∷ []) ≡ r' =
        some-injective _ _ (rw (absent, register_workflow) at e) in
      subst (λ x. get_workflow name x ≡ some d) same (get_workflow-append name d r absent)
  | inr (x, found) ↦ cc (rw (found, register_workflow) at e)
]

-- If a workflow is registered under a name outside the enumeration, uses_multi_stage_delivery
-- accepts the name and build_execution_plan raises a ValueError for it.
pub build-plugin :
    (r r' : Registry) (max : ℕ) (name : String) (d : WorkflowDefinition)
    → resolve_workflow_name name ≡ none
    → register_workflow name d r ≡ some r'
    → (uses_multi_stage_delivery r' name ≡ true)
      × (build_execution_plan r' max name ≡ raised (record { kind = value_error; text = name }))
unfolding uses_multi_stage_delivery build_execution_plan
build-plugin r r' max name d fresh added =
    let found : get_workflow name r' ≡ some d = get_workflow-registered name d r r' added in
    let multi : uses_multi_stage_delivery r' name ≡ true =
      rw (uses_multi_stage_delivery, fresh) (rw found refl) in
    (multi, rw (build_execution_plan, multi) (rw fresh refl))
