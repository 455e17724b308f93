-- ===== src/Application/Stages/Lessons.antt =====
-- The last stage of a run, for a configuration without an agent for its workflow.
use merge_mate.Base.{String, Option, none, ◌≡◌, refl, ◌∙◌}
use merge_mate.Config.{AppConfig, agent_for, role_for, resolve_agent_name_for_workflow}
use merge_mate.Config.Choices.{resolve-no_role, agent_or_preferred-absent}
use merge_mate.World.Effects.{Exec, raised, value_error}
use merge_mate.Application.Stages.{generate_stage_output, not_found_text, or_none}
use merge_mate.Application.Stages.Prompts.{Lesson, record_lesson}

module _ {S : Type 0} (c : AppConfig) (generate : String → String → String → Exec S String) where
  stage_output-unresolved :
      (workflow system user : String) (p : Option String) (s : S)
      → resolve_agent_name_for_workflow c workflow p ≡ none
      → generate_stage_output c generate workflow system user p s
        ≡ (raised (record { kind = value_error; text = not_found_text c workflow }), s)
  unfolding generate_stage_output
  stage_output-unresolved workflow system user p s h = rw (h, generate_stage_output) refl

  -- If no role and no agent serves the workflow learning, record_lesson raises an error and calls
  -- no model.
  pub record_lesson-unserved :
      (strip : String → String) (l : Lesson) (s : S)
      → role_for "learning" none c.roles ≡ none
      → agent_for "learning" c.agents ≡ none
      → record_lesson c generate strip l s
        ≡ (raised (record { kind = value_error; text = not_found_text c "learning" }), s)
  unfolding record_lesson
  record_lesson-unserved strip l s no_role no_agent =
      stage_output-unresolved "learning" _ _ (or_none l.agent_name) s (
        resolve-no_role c "learning" (or_none l.agent_name) no_role
        ∙ agent_or_preferred-absent "learning" c.agents (or_none l.agent_name) no_agent)
