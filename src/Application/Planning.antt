-- ===== src/Application/Planning.antt =====
-- src/mergemate/application/services/planning_service.py: the prompts of the planning agent, and the
-- summary of the progress. The gateway's call and `str.strip` are parameters, and so are the
-- decimal digits of a number.
use merge_mate.Base.{
  ℕ, String, Bool, Option, none, some, List, [], ◌∷◌, ◌++◌, ◌≡◌, refl, map, elem, str_eq,
  if◌then◌else◌, length, count_where,
}
use merge_mate.Base.Texts.{join}
use merge_mate.Config.{AppConfig, resolve_agent_name_for_workflow, validate}
use merge_mate.Config.Validity.{validate-resolves}
use merge_mate.World.Effects.{Exec, pure, raise, value_error, ◌>>=◌}
use merge_mate.Application.Stages.{not_found_text}

abbrev concat_text : List String → String
concat_text parts = join "" parts

abbrev pub planning_system : String
planning_system = concat_text (
    "You are the planning and coordination agent. Capture and confirm requirements. "
    ∷ "Always produce a plan that includes design and how to test. "
    ∷ "If requirements are unclear, include direct clarification questions. "
    ∷ "You also coordinate operational decisions such as tool installation or settings updates when required.\n\n"
    ∷ "IMPORTANT: After the free-form plan, append a structured task breakdown:\n\n"
    ∷ "## Task Breakdown\n" ∷ "- [ ] Task name — description (@role_name)\n"
    ∷ "  One line per task. Each task must specify the role responsible "
    ∷ "in parentheses after an @ symbol.\n"
    ∷ "  Valid roles: planner, architect, coder, tester, reviewer\n"
    ∷ "  Example: \"- [ ] Design auth flow — define API endpoints and user model (@architect)\"\n"
    ∷ "- [ ] ...\n" ∷ [])

module _ (strip : String → String) where
  abbrev feedback_part : Option String → String
  feedback_part none = ""
  feedback_part (some f) =
      if str_eq f ""
      then ""
      else concat_text ("\n\nIncorporate this feedback or reviewer concern:\n" ∷ strip f ∷ [])

  -- The prompt of `draft_plan`.
  unfoldable pub planning_prompt : String → Option String → String
  planning_prompt prompt feedback = concat_text (
      "User request:\n"
      ∷ strip prompt
      ∷ "\n\n"
      ∷ "Return sections in this exact order:\n"
      ∷ "1. Confirmed requirements\n"
      ∷ "2. Open questions\n"
      ∷ "3. Proposed plan\n"
      ∷ "4. Design approach\n"
      ∷ "5. Test approach\n"
      ∷ "6. Approval instruction\n"
      ∷ "7. Task Breakdown (see system prompt for format)"
      ∷ feedback_part feedback
      ∷ [])

module _ {S : Type 0} (c : AppConfig) (generate : String → String → String → Exec S String)
    (strip : String → String) where
  unfoldable pub draft_plan : String → Option String → Exec S String
  unfolding planning_prompt
  draft_plan prompt feedback = elim (resolve_agent_name_for_workflow c "planning" none) [
    | none ↦ raise value_error (not_found_text c "planning")
    | some agent ↦ generate agent planning_system (planning_prompt strip prompt feedback)
  ]

  unfoldable pub revise_plan : String → String → Exec S (String × String)
  unfolding draft_plan
  revise_plan prompt feedback =
      let updated =
        concat_text (prompt ∷ "\n\nAdditional user feedback:\n" ∷ strip feedback ∷ []) in
      draft_plan updated none >>= λ plan. pure (updated, plan)

  draft_plan-by :
      (agent prompt : String) (feedback : Option String)
      → resolve_agent_name_for_workflow c "planning" none ≡ some agent
      → draft_plan prompt feedback
        ≡ generate agent planning_system (planning_prompt strip prompt feedback)
  unfolding draft_plan
  draft_plan-by agent prompt feedback found = rw (found, draft_plan) refl

  -- If a configuration is accepted, draft_plan is a call of the model for an agent of planning.
  pub draft_plan-planned :
      (prompt : String) (feedback : Option String)
      → validate c ≡ none
      → (agent : String) × (resolve_agent_name_for_workflow c "planning" none ≡ some agent)
        × (draft_plan prompt feedback
            ≡ generate agent planning_system (planning_prompt strip prompt feedback))
  draft_plan-planned prompt feedback valid =
      let (agent, found) = validate-resolves c "planning" none valid refl in
      (agent, found, draft_plan-by agent prompt feedback found)

-- A task of the breakdown.
pub record PlanTask : Type 0 where
  pub description : String
  pub owner : String

abbrev pub is_done : List String → PlanTask → Bool
is_done completed t = elem t.owner completed

abbrev task_line : List String → PlanTask → String
task_line completed t = concat_text (
    "- "
    ∷ (if is_done completed t then "✅" else "❌")
    ∷ " "
    ∷ t.description
    ∷ " (@"
    ∷ t.owner
    ∷ ")"
    ∷ [])

-- `build_progress_summary`
unfoldable pub build_progress_summary : (ℕ → String) → List PlanTask → List String → String
build_progress_summary digits [] completed = ""
build_progress_summary digits (t ∷ ts) completed = join "\n" (
    ("## Progress Summary\n" ∷ map (task_line completed) (t ∷ ts))
    ++ concat_text (
        "\n**"
        ∷ digits (count_where (is_done completed) (t ∷ ts))
        ∷ "/"
        ∷ digits (length (t ∷ ts))
        ∷ " tasks completed**"
        ∷ [])
      ∷ [])
