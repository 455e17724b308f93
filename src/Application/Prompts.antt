-- ===== src/Application/Prompts.antt =====
-- src/mergemate/application/services/prompt_service.py. Reading the prompt's file, `str.strip`,
-- `str.upper`, and the lines of the lessons, which are read as JSON, are parameters.
use merge_mate.Base.{
  String, Option, none, some, List, [], ◌∷◌, ◌++◌, map, str_eq, if◌then◌else◌, text_append,
}
use merge_mate.Base.Texts.{join}
use merge_mate.Domain.Workflows.{workflow_prompt_file}
use merge_mate.Persistence.Learnings.{LearningEntry}
use merge_mate.Persistence.Knowledge.{KnowledgeEntry}

abbrev concat_text : List String → String
concat_text parts = join "" parts

-- `read` gives the text of a file below `prompts_root / "system"`.
pub record PromptService : Type 0 where
  pub read : String → String
  pub strip : String → String
  pub upper : String → String
  pub lesson_lines : String → List String

abbrev lessons_of : (String → List String) → Option String → List String
lessons_of lines none = []
lessons_of lines (some raw) = if str_eq raw "" then [] else lines raw

unfoldable item_lines : (String → List String) → List LearningEntry → List String
item_lines lines [] = []
item_lines lines (e ∷ es) =
    (text_append "- Workflow: " e.workflow
      ∷ text_append "  Prior prompt: " e.prompt
      ∷ text_append "  Prior result excerpt: " e.result_excerpt
      ∷ lessons_of lines e.learning_lessons)
    ++ item_lines lines es

module _ (p : PromptService) where
  -- `_build_learning_lines`
  unfoldable pub build_learning_lines : List LearningEntry → List String
  unfolding item_lines
  build_learning_lines [] = []
  build_learning_lines (e ∷ es) =
      "Previously successful patterns:" ∷ item_lines p.lesson_lines (e ∷ es)

  -- `_load_system_prompt`
  unfoldable pub load_system_prompt : String → String
  load_system_prompt workflow = p.strip (p.read (workflow_prompt_file workflow))

  abbrev message_line : String × String → String
  message_line (role, content) = concat_text (p.upper role ∷ ": " ∷ content ∷ [])

  abbrev after_lines : List String → String
  after_lines [] = ""
  after_lines (l ∷ ls) = text_append "\n\n" (join "\n" (l ∷ ls))

  abbrev contextual : List String → List String → String → String
  contextual [] [] prompt = p.strip prompt
  contextual [] (l ∷ ls) prompt =
      concat_text (join "\n" (l ∷ ls) ∷ "\n\nLatest user request:\n" ∷ p.strip prompt ∷ [])
  contextual (m ∷ ms) learned prompt = concat_text (
      "Recent conversation:\n"
      ∷ join "\n" (m ∷ ms)
      ∷ after_lines learned
      ∷ "\n\nLatest user request:\n"
      ∷ p.strip prompt
      ∷ [])

  abbrev knowledge_line : KnowledgeEntry → String
  knowledge_line k = concat_text ("- [" ∷ k.repo_name ∷ "] " ∷ k.topic ∷ ": " ∷ k.summary ∷ [])

  abbrev knowledge_part : List KnowledgeEntry → String
  knowledge_part [] = ""
  knowledge_part (k ∷ ks) =
      text_append "\n" (join "\n" ("\nCurrent repository knowledge:" ∷ map knowledge_line (k ∷ ks)))

  -- `render`
  unfoldable pub render :
      String
      → List (String × String)
      → List LearningEntry
      → String
      → List KnowledgeEntry
      → String × String
  unfolding build_learning_lines load_system_prompt
  render workflow messages learned prompt knowledge = (
    load_system_prompt workflow,
    text_append (contextual (map message_line messages) (build_learning_lines learned) prompt)
        (knowledge_part knowledge),
  )
