-- ===== src/Samples/Settings.antt =====
-- The theorems on the configuration, for one that is accepted and has no agent for the workflow
-- learning.
use merge_mate.Base.{String, none, some, List, [], ◌∷◌, ◌≡◌, refl, elem, select}
use merge_mate.Config.{
  AppConfig, AgentConfig, parallel, first_success, validate, validate_providers, validate_workflows,
  first_unknown, unknown_of, workflows_of, repeated, missing_of, none_or, get_entry, populate_roles,
  agent_for, resolve_agent_name_for_workflow,
}
use merge_mate.Config.Choices.{resolve-populated}
use merge_mate.Config.Validity.{validate-resolves}

abbrev agent : String → List String → AgentConfig
agent workflow providers = record {
  workflow = workflow;
  tools = [];
  provider_names = providers;
  parallel_mode = parallel;
  combine_strategy = first_success;
}

abbrev pub settings : AppConfig
settings = record {
  default_agent = "coder";
  default_provider = "p";
  providers = "p" ∷ "q" ∷ [];
  agents =
      ("planner", agent "planning" [])
      ∷ ("architect", agent "design" ("q" ∷ []))
      ∷ ("coder", agent "generate_code" ("p" ∷ "q" ∷ []))
      ∷ ("tester", agent "testing" [])
      ∷ ("reviewer", agent "review" [])
      ∷ [];
  roles = [];
}

pub settings-IsValid : validate settings ≡ none
unfolding validate validate_providers validate_workflows first_unknown unknown_of workflows_of
    repeated missing_of none_or get_entry elem select
settings-IsValid = refl

resolve-populated_example :
    resolve_agent_name_for_workflow (populate_roles settings) "design" (some "coder")
    ≡ agent_for "design" settings.agents
resolve-populated_example = resolve-populated settings "design" (some "coder") refl

validate-resolves_example :
    (name : String) × (resolve_agent_name_for_workflow settings "review" none ≡ some name)
unfolding workflows_of elem
validate-resolves_example = validate-resolves settings "review" none settings-IsValid refl
