-- ===== src/Application/Stages/Prompts.antt =====
-- src/mergemate/application/services/workflow_service.py: the prompts of the stages, and the workflow
-- that each of them resolves.
use text.Mathlib.Text.{starts_with}
use merge_mate.Base.{
  String, Bool, false, Option, none, some, List, [], ◌∷◌, ◌++◌, str_eq, if◌then◌else◌, text_append,
}
use merge_mate.Config.{AppConfig}
use merge_mate.Base.Texts.{join}
use merge_mate.World.Effects.{Exec}
use merge_mate.Application.Stages.{generate_stage_output, or_none}

abbrev concat_text : List String → String
concat_text parts = join "" parts

-- What `record_lesson` reads.
pub record Lesson : Type 0 where
  pub plan_text : String
  pub design_text : String
  pub implementation_text : String
  pub test_text : String
  pub review_text : String
  pub result_text : String
  pub error_text : String
  pub agent_name : String

abbrev lesson_system : String
lesson_system =
    "You are an experience recordist. Extract lessons, pitfalls, and best practices from the artifacts below."

abbrev design_system : String
design_system = concat_text (
    "You are the architect agent. Create an implementation-ready design from the approved plan. "
    ∷ "Be concrete about modules, interfaces, data flow, and testing seams." ∷ [])

abbrev code_system : String
code_system = concat_text (
    "You are the coding agent. Implement according to the approved plan and design. "
    ∷ "Return a practical implementation summary, key file changes, and important code snippets."
    ∷ [])

abbrev test_system : String
test_system = concat_text (
    "You are the test agent. Produce tests and a validation approach for the implementation. "
    ∷ "Focus on runnable tests, edge cases, and verification steps." ∷ [])

abbrev review_system : String
review_system = concat_text (
    "You are the review agent. Review the design and implementation. "
    ∷ "Start with 'HIGH_CONCERNS: yes' if there are serious concerns, otherwise 'HIGH_CONCERNS: no'. "
    ∷ "Then provide findings, rationale, and whether replanning is required." ∷ [])

abbrev lesson_intro : String
lesson_intro = concat_text (
    "Review the following workflow artifacts and produce a brief "
    ∷ "lessons-learned summary. Include:\n\n"
    ∷ "**Lessons Learned** — what went well, what could be improved\n"
    ∷ "**Pitfalls to Avoid** — mistakes, gotchas, anti-patterns\n"
    ∷ "**Best Practices** — conventions and patterns to reuse\n\n" ∷ "Be concise and concrete.\n\n"
    ∷ [])

module _ (strip : String → String) where
  -- `if text: parts.append(…)`
  abbrev part : String → String → List String
  part label text =
      if str_eq text "" then [] else concat_text ("## " ∷ label ∷ "\n" ∷ strip text ∷ []) ∷ []

  unfoldable pub lesson_prompt : Lesson → String
  lesson_prompt l = text_append lesson_intro (
      join "\n\n" (
        part "Plan" l.plan_text
        ++ part "Design" l.design_text
        ++ part "Implementation" l.implementation_text
        ++ part "Tests" l.test_text
        ++ part "Review" l.review_text
        ++ part "Result" l.result_text
        ++ part "Error" l.error_text))

-- The first line of a review, `review_text.strip().splitlines()[0].lower()`, and none if it is empty.
abbrev pub has_high_concerns : (String → Option String) → String → Bool
has_high_concerns first_line review = elim (first_line review) [
  | none ↦ false
  | some line ↦ starts_with line "high_concerns: yes"
]

module _ {S : Type 0} (c : AppConfig) (generate : String → String → String → Exec S String)
    (strip : String → String) where
  unfoldable pub create_design : String → String → Exec S String
  create_design plan context =
      generate_stage_output c generate "design" design_system
        (concat_text ("Approved plan:\n" ∷ plan ∷ "\n\nRetrieved context:\n" ∷ context ∷ [])) none

  unfoldable pub generate_code : String → String → String → Option String → Exec S String
  generate_code plan design context agent =
      generate_stage_output c generate "generate_code" code_system
        (concat_text (
          "Plan:\n" ∷ plan ∷ "\n\nDesign:\n" ∷ design ∷ "\n\nContext:\n" ∷ context
          ∷ "\n\nProduce implementation details and code-oriented output." ∷ []))
        agent

  unfoldable pub generate_tests : String → String → String → Exec S String
  generate_tests plan design implementation =
      generate_stage_output c generate "testing" test_system
        (concat_text (
          "Plan:\n" ∷ plan ∷ "\n\nDesign:\n" ∷ design ∷ "\n\nImplementation:\n" ∷ implementation
          ∷ []))
        none

  unfoldable pub review : String → String → String → String → Exec S String
  review plan design implementation tests =
      generate_stage_output c generate "review" review_system
        (concat_text (
          "Plan:\n" ∷ plan ∷ "\n\nDesign:\n" ∷ design ∷ "\n\nImplementation:\n" ∷ implementation
          ∷ "\n\nTests:\n" ∷ tests ∷ []))
        none

  unfoldable pub execute_direct : String → String → String → Exec S String
  execute_direct agent system user = generate agent system user

  unfoldable pub record_lesson : Lesson → Exec S String
  unfolding lesson_prompt
  record_lesson l =
      generate_stage_output c generate "learning" lesson_system (lesson_prompt strip l)
        (or_none l.agent_name)
