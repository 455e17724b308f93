-- ===== src/Application/FinalResult.antt =====
-- src/mergemate/application/execution_plan.py, `_build_final_result`.
use merge_mate.Base.{
  String, Option, none, some, List, [], ◌∷◌, ◌++◌, str_eq, if◌then◌else◌, text_append,
}
use merge_mate.Application.Handlers.{ArtifactsDict}

-- `_build_final_result`, for `str.strip` and for the summary of the tasks of the plan, which is none
-- where the plan has no task.
module _ (strip : String → String) (summary : String → List String → Option String) where
  pub completed_role : String → String → List String
  completed_role text role = if str_eq text "" then [] else role ∷ []

  pub completed_roles : ArtifactsDict → List String
  unfolding completed_role
  completed_roles a =
      completed_role a.design_text "architect"
      ++ (completed_role a.implementation_text "coder"
          ++ (completed_role a.test_text "tester"
              ++ (completed_role a.review_text "reviewer"
                  ++ completed_role a.lesson_text "chronicler")))

  pub section_text : String → String → String → String
  section_text title text rest = text_append title (text_append text rest)

  unfoldable pub build_final_result : ArtifactsDict → String
  unfolding completed_roles section_text
  build_final_result a =
      let base = strip (
        section_text "Approved plan:\n" a.plan_text (
          section_text "\n\nDesign document:\n" a.design_document_path (
            section_text "\n\nTest plan document:\n" a.test_document_path (
              section_text "\n\nReview report:\n" a.review_document_path (
                section_text "\n\nLesson document:\n" a.lesson_document_path (
                  section_text "\n\nDesign:\n" a.design_text (
                    section_text "\n\nImplementation:\n" a.implementation_text (
                      section_text "\n\nTests:\n" a.test_text
                        (section_text "\n\nReview:\n" a.review_text ""))))))))) in
      elim (summary a.plan_text (completed_roles a)) [
        | none ↦ base
        | some text ↦ text_append base (text_append "\n\n" text)
      ]
