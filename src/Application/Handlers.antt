-- ===== src/Application/Handlers.antt =====
-- src/mergemate/domain/workflows/handlers.py: the stage handlers, on the dictionary of artifacts that
-- they read from and write to. A key that `artifacts.get(key, "")` does not find is an empty text.
use merge_mate.Base.{ℕ, String, Bool, true, Option, none, some, str_eq, if◌then◌else◌}
use merge_mate.Persistence.RunRepository.{Artifacts, save_artifacts, update_plan}
use merge_mate.Domain.Runs.{ChatId}
use merge_mate.World.{Action, pure, ◌>>=◌, ◌>>◌, on_runs}

pub record ArtifactsDict : Type 0 where
  pub run_id : String
  pub run_prompt : String
  pub plan_text : String
  pub context_text : String
  pub system_prompt : String
  pub iteration : ℕ
  pub design_text : String
  pub implementation_text : String
  pub test_text : String
  pub review_text : String
  pub lesson_text : String
  pub result_text : String
  pub design_document_path : String
  pub test_document_path : String
  pub review_document_path : String
  pub lesson_document_path : String
  pub is_direct : Bool

-- The services that a plan is given. They are awaited or write files, and their models are other
-- parts of the program: here each is an arbitrary action.
pub record Services : Type 0 where
  pub create_design : String → String → Action String
  pub generate_code : String → String → String → String → Action String
  pub generate_tests : String → String → String → Action String
  pub review : String → String → String → String → Action String
  pub record_lesson : String → String → String → String → String → String → String → Action String
  pub execute_direct : String → String → String → Action String
  pub has_high_concerns : String → Bool
  pub draft_plan : String → String → Action String
  pub write_architecture_design : String → ℕ → String → String → String → Action String
  pub write_test_plan : String → ℕ → String → String → String → String → Action String
  pub write_review_report :
      String → ℕ → String → String → String → String → String → String → Action String
  pub write_lesson : String → ℕ → String → String → String → Action String
  pub remember_success : ChatId → String → String → String → Action (Unit {0})

-- The keyword arguments of `_persist_artifacts` that every handler gives: the others are none.
abbrev pub stage_artifacts : String → Option ℕ → Artifacts
stage_artifacts stage iterations = record {
  current_stage = some stage;
  design_text = none;
  test_text = none;
  review_text = none;
  result_text = none;
  review_iterations = iterations;
}

pub persist_artifacts : ArtifactsDict → Artifacts → Action (Unit {0})
persist_artifacts a kwargs = do on_runs (λ now. save_artifacts kwargs now a.run_id); pure tt

module _ (s : Services) where
  -- The savers of `_save_document`, which keep the path of the document in the dictionary.
  pub save_architecture_document : ArtifactsDict → String → String → Action ArtifactsDict
  save_architecture_document a agent design = do
    path ← s.write_architecture_design a.run_id a.iteration a.plan_text design agent
    pure (record a { design_document_path = path })

  -- The keyword arguments give no design here, so the saver writes an empty one.
  pub save_testing_document : ArtifactsDict → String → String → Action ArtifactsDict
  save_testing_document a agent test = do
    path ← s.write_test_plan a.run_id a.iteration a.plan_text "" test agent
    pure (record a { test_document_path = path })

  pub save_review_document : ArtifactsDict → String → String → Action ArtifactsDict
  save_review_document a agent review = do
    path ← s.write_review_report a.run_id a.iteration a.plan_text "" "" "" review agent
    pure (record a { review_document_path = path })

  pub save_lessons_document : ArtifactsDict → String → String → Action ArtifactsDict
  save_lessons_document a agent lesson = do
    path ← s.write_lesson a.run_id a.iteration a.plan_text lesson agent
    pure (record a { lesson_document_path = path })

  unfoldable pub handle_design : String → ArtifactsDict → Action ArtifactsDict
  unfolding persist_artifacts save_architecture_document
  handle_design agent a = do
    text ← s.create_design a.plan_text a.context_text
    saved ← save_architecture_document a agent text
    persist_artifacts a
        (record (stage_artifacts "design" (some a.iteration)) { design_text = some text })
    pure (record saved { design_text = text })

  unfoldable pub handle_implementation : String → ArtifactsDict → Action ArtifactsDict
  unfolding persist_artifacts
  handle_implementation agent a = do
    text ← s.generate_code a.plan_text a.design_text a.context_text agent
    persist_artifacts a
        (record (stage_artifacts "implementation" (some a.iteration)) { result_text = some text })
    pure (record a { implementation_text = text })

  unfoldable pub handle_testing : String → ArtifactsDict → Action ArtifactsDict
  unfolding persist_artifacts save_testing_document
  handle_testing agent a = do
    text ← s.generate_tests a.plan_text a.design_text a.implementation_text
    saved ← save_testing_document a agent text
    persist_artifacts a
        (record (stage_artifacts "testing" (some a.iteration)) { test_text = some text })
    pure (record saved { test_text = text })

  unfoldable pub handle_review : String → ArtifactsDict → Action ArtifactsDict
  unfolding persist_artifacts save_review_document
  handle_review agent a = do
    text ← s.review a.plan_text a.design_text a.implementation_text a.test_text
    saved ← save_review_document a agent text
    persist_artifacts a
        (record (stage_artifacts "review" (some a.iteration)) { review_text = some text })
    pure (record saved { review_text = text })

  unfoldable pub handle_replanning : String → ArtifactsDict → Action ArtifactsDict
  handle_replanning agent a = do
    plan ← s.draft_plan a.run_prompt a.review_text
    on_runs (λ now. update_plan plan none (some "internal_replanning") now a.run_id)
    pure (record a { plan_text = plan })

  -- The lesson's text is no column: `save_artifacts` drops it.
  unfoldable pub handle_chronicle : String → ArtifactsDict → Action ArtifactsDict
  unfolding persist_artifacts save_lessons_document
  handle_chronicle agent a = do
    text ←
        s.record_lesson a.plan_text a.design_text a.implementation_text a.test_text a.review_text
          a.result_text agent
    saved ← save_lessons_document a agent text
    persist_artifacts a (stage_artifacts "chronicle" (some a.iteration))
    pure (record saved { lesson_text = text })

  unfoldable pub handle_direct : String → ArtifactsDict → Action ArtifactsDict
  unfolding persist_artifacts
  handle_direct agent a = do
    text ← s.execute_direct agent a.system_prompt a.context_text
    persist_artifacts a (record (stage_artifacts "execution" none) { result_text = some text })
    pure (record a { result_text = text; is_direct = true })

  unfoldable pub get_stage_handler : String → Option (String → ArtifactsDict → Action ArtifactsDict)
  get_stage_handler key =
      if str_eq key "design"
      then some handle_design
      else if str_eq key "implementation"
      then some handle_implementation
      else if str_eq key "testing"
      then some handle_testing
      else if str_eq key "review"
      then some handle_review
      else if str_eq key "replanning"
      then some handle_replanning
      else if str_eq key "chronicle"
      then some handle_chronicle
      else if str_eq key "direct"
      then some handle_direct
      else none
