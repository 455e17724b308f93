-- ===== src/Domain/Workflows.antt =====
-- src/mergemate/domain/shared/enums.py (WorkflowName), domain/workflows/stage.py and registry.py,
-- and domain/policies. The registry is a dictionary in the order of its registrations.
pub mod Plans
use merge_mate.Base.{
  String, Bool, true, false, Option, none, some, List, [], ◌∷◌, ◌++◌, str_eq, if◌then◌else◌,
}

pub data WorkflowName : Type 0 where
  planning design generate_code debug_code explain_code testing review learning : WorkflowName

unfoldable pub workflow_value : WorkflowName → String
workflow_value planning = "planning"
workflow_value design = "design"
workflow_value generate_code = "generate_code"
workflow_value debug_code = "debug_code"
workflow_value explain_code = "explain_code"
workflow_value testing = "testing"
workflow_value review = "review"
workflow_value learning = "learning"

-- `resolve_workflow_name` of a text.
unfoldable pub resolve_workflow_name : String → Option WorkflowName
resolve_workflow_name t =
    if str_eq t "planning"
    then some planning
    else if str_eq t "design"
    then some design
    else if str_eq t "generate_code"
    then some generate_code
    else if str_eq t "debug_code"
    then some debug_code
    else if str_eq t "explain_code"
    then some explain_code
    else if str_eq t "testing"
    then some testing
    else if str_eq t "review"
    then some review
    else if str_eq t "learning"
    then some learning
    else none

-- `workflow_name in USER_FACING_WORKFLOWS`
abbrev pub user_facing : Option WorkflowName → Bool
user_facing (some generate_code) = true
user_facing (some debug_code) = true
user_facing (some explain_code) = true
user_facing _ = false

unfoldable pub is_user_facing_workflow : String → Bool
is_user_facing_workflow t = user_facing (resolve_workflow_name t)

abbrev prompt_file : Option WorkflowName → String
prompt_file (some generate_code) = "code_generation.md"
prompt_file (some debug_code) = "debugging.md"
prompt_file (some explain_code) = "explanation.md"
prompt_file _ = "base.md"

unfoldable pub workflow_prompt_file : String → String
workflow_prompt_file t = prompt_file (resolve_workflow_name t)

pub record WorkflowStage : Type 0 where
  pub name : String
  pub current_stage : String
  pub handler : String
  pub prompt_template : String
  pub validation_hook_key : String
  pub uses_tool_context : Bool
  pub checks_cancellation_before : Bool
  pub checks_cancellation_after : Bool
  pub produces : List String

pub record WorkflowDefinition : Type 0 where
  pub name : String
  pub stages : List WorkflowStage

-- `_stage`: the handler's key is the name where it is empty.
unfoldable pub stage_of :
    String → String → String → Bool → Bool → Bool → List String → WorkflowStage
stage_of name current_stage handler tools before after produces = record {
  name = name;
  current_stage = current_stage;
  handler = if str_eq handler "" then name else handler;
  prompt_template = "";
  validation_hook_key = "";
  uses_tool_context = tools;
  checks_cancellation_before = before;
  checks_cancellation_after = after;
  produces = produces;
}

-- The two entries of `_BUILTIN_WORKFLOWS`.
unfoldable pub learning_workflow : WorkflowDefinition
unfolding stage_of workflow_value
learning_workflow = record {
  name = workflow_value learning;
  stages = stage_of "chronicle" "chronicle" "chronicle" false false false ("lesson_text" ∷ []) ∷ [];
}

unfoldable pub code_workflow : WorkflowDefinition
unfolding stage_of workflow_value
code_workflow = record {
  name = workflow_value generate_code;
  stages =
      stage_of "design" "design" "" true true true ("design_text" ∷ [])
      ∷ stage_of "implementation" "implementation" "" true false true ("result_text" ∷ [])
      ∷ stage_of "testing" "testing" "" false false true ("test_text" ∷ [])
      ∷ stage_of "review" "review" "" false false true ("review_text" ∷ [])
      ∷ stage_of "chronicle" "chronicle" "chronicle" false false true ("lesson_text" ∷ [])
      ∷ stage_of "replanning" "internal_replanning" "" false false true []
      ∷ [];
}

abbrev pub Registry : Type 0
Registry = List (String × WorkflowDefinition)

unfoldable pub get_workflow : String → Registry → Option WorkflowDefinition
get_workflow name [] = none
get_workflow name ((k, d) ∷ r) = if str_eq k name then some d else get_workflow name r

-- `none` is the KeyError for a name that is registered.
unfoldable pub register_workflow : String → WorkflowDefinition → Registry → Option Registry
register_workflow name d r = elim (get_workflow name r) [
  | none ↦ some (r ++ (name, d) ∷ [])
  | some _ ↦ none
]

-- `_register_builtin_workflows` on the registry at start, which is empty.
unfoldable pub builtin_registry : Registry
unfolding workflow_value
builtin_registry =
    (workflow_value learning, learning_workflow)
    ∷ (workflow_value generate_code, code_workflow)
    ∷ []

-- `uses_multi_stage_delivery` of a text.
unfoldable pub uses_multi_stage_delivery : Registry → String → Bool
uses_multi_stage_delivery r t = elim (resolve_workflow_name t) [
  | some n ↦ elim (get_workflow (workflow_value n) r) [ none ↦ false | some _ ↦ true ]
  | none ↦ elim (get_workflow t r) [ none ↦ false | some _ ↦ true ]
]

-- `get_workflow_definitions().get(name)`: only names of the enumeration have a definition there.
unfoldable pub definition_of : Registry → WorkflowName → Option WorkflowDefinition
definition_of r n = get_workflow (workflow_value n) r
