-- ===== src/Config.antt =====
-- src/mergemate/config/models.py: the agents and roles of AppConfig, its validation, and the choice
-- of agents and providers. A dictionary is the list of its entries, in their order.
pub mod Choices
pub mod Validity
pub mod Webhook
pub mod Listeners
use merge_mate.Base.{
  ℕ, String, Bool, true, false, not, ◌&&◌, ◌||◌, Option, none, some, List, [], ◌∷◌, map, str_eq,
  if◌then◌else◌, elem, select,
}

pub data ParallelMode : Type 0 where
  single parallel : ParallelMode

pub data CombineStrategy : Type 0 where
  sectioned first_success : CombineStrategy

pub record WorkerConfig : Type 0 where
  pub name : String
  pub provider_names : List String
  pub tools : List String

pub record RoleConfig : Type 0 where
  pub soul : String
  pub workflow : String
  pub workers : List WorkerConfig
  pub provider_names : List String
  pub tools : List String
  pub parallel_mode : ParallelMode
  pub combine_strategy : CombineStrategy

pub record AgentConfig : Type 0 where
  pub workflow : String
  pub tools : List String
  pub provider_names : List String
  pub parallel_mode : ParallelMode
  pub combine_strategy : CombineStrategy

-- The fields of AppConfig that the validation and the choices read. Of a provider it is the name.
pub record AppConfig : Type 0 where
  pub default_agent : String
  pub default_provider : String
  pub providers : List String
  pub agents : List (String × AgentConfig)
  pub roles : List (String × RoleConfig)

-- `dict.get`
unfoldable pub get_entry {ℓ} : {A : Type ℓ} → String → List (String × A) → Option A
get_entry key [] = none
get_entry key ((k, a) ∷ rest) = if str_eq k key then some a else get_entry key rest

abbrev pub role_of : String → AgentConfig → RoleConfig
role_of name a = record {
  soul = name;
  workflow = a.workflow;
  workers = [];
  provider_names = a.provider_names;
  tools = a.tools;
  parallel_mode = a.parallel_mode;
  combine_strategy = a.combine_strategy;
}

unfoldable pub roles_of : List (String × AgentConfig) → List (String × RoleConfig)
roles_of [] = []
roles_of ((name, a) ∷ rest) = (name, role_of name a) ∷ roles_of rest

-- `_populate_roles_from_agents`
unfoldable pub populate_roles : AppConfig → AppConfig
unfolding roles_of
populate_roles c = record c {
  roles = elim c.roles [ [] ↦ roles_of c.agents | r ∷ rest ↦ r ∷ rest ];
}

-- What `validate_provider_references` raises; the lists of workflows stand in its text, sorted.
pub data Fault : Type 0 where
  agent_not_found provider_not_found not_user_facing no_planning : Fault
  unknown_provider : String → String → Fault
  duplicate_workflows missing_workflows : List String → Fault

abbrev pub user_facing_workflow : String → Bool
user_facing_workflow w =
    str_eq w "generate_code" || (str_eq w "debug_code" || str_eq w "explain_code")

-- The first provider of a list that is not configured.
unfoldable pub unknown_of : List String → List String → Option String
unknown_of known [] = none
unknown_of known (p ∷ ps) = if elem p known then unknown_of known ps else some p

unfoldable pub first_unknown : List String → List (String × AgentConfig) → Option Fault
unfolding unknown_of
first_unknown known [] = none
first_unknown known ((name, a) ∷ rest) = elim (unknown_of known a.provider_names) [
  | some p ↦ some (unknown_provider name p)
  | none ↦ first_unknown known rest
]

unfoldable pub workflows_of : List (String × AgentConfig) → List String
workflows_of [] = []
workflows_of ((name, a) ∷ rest) = a.workflow ∷ workflows_of rest

-- The workflows that occur more than once, each one once.
unfoldable pub repeated : List String → List String
repeated [] = []
repeated (w ∷ ws) =
    let rest = repeated ws in if elem w ws && not (elem w rest) then w ∷ rest else rest

abbrev pub multi_stage_workflows : List String
multi_stage_workflows = "design" ∷ "testing" ∷ "review" ∷ []

unfoldable pub missing_of : List String → List String
missing_of available = select (λ w. not (elem w available)) multi_stage_workflows

unfoldable pub none_or : (List String → Fault) → List String → Option Fault → Option Fault
none_or fault [] next = next
none_or fault (w ∷ ws) next = some (fault (w ∷ ws))

unfoldable pub validate_workflows : List String → Option Fault
unfolding missing_of none_or
validate_workflows available = none_or duplicate_workflows (repeated available) (
    if not (elem "planning" available)
    then some no_planning
    else if elem "generate_code" available
    then none_or missing_workflows (missing_of available) none
    else none)

unfoldable pub validate_providers : AppConfig → Option Fault
unfolding validate_workflows
validate_providers c =
    if not (elem c.default_provider c.providers)
    then some provider_not_found
    else elim (first_unknown c.providers c.agents) [
      | some f ↦ some f
      | none ↦ validate_workflows (workflows_of c.agents)
    ]

-- `validate_provider_references`; none says that the configuration is accepted.
unfoldable pub validate : AppConfig → Option Fault
unfolding validate_providers
validate c = elim (get_entry c.default_agent c.agents) [
  | none ↦ some agent_not_found
  | some a ↦
      if not (user_facing_workflow a.workflow) then some not_user_facing else validate_providers c
]

abbrev pub names_role : Option RoleConfig → List String
names_role none = []
names_role (some r) = r.provider_names

abbrev pub names_agent : Option AgentConfig → List String
names_agent none = []
names_agent (some a) = a.provider_names

-- `names or [fallback]`
abbrev pub or_default : String → List String → List String
or_default fallback [] = fallback ∷ []
or_default fallback (n ∷ ns) = n ∷ ns

-- `names or others`
abbrev pub or_names : List String → List String → List String
or_names [] others = others
or_names (n ∷ ns) others = n ∷ ns

-- `resolve_agent_provider_names`
unfoldable pub resolve_agent_provider_names : AppConfig → String → List String
resolve_agent_provider_names c agent =
    or_names (names_role (get_entry agent c.roles))
      (or_default c.default_provider (names_agent (get_entry agent c.agents)))

abbrev pub prefers : Option String → String → Bool
prefers none name = false
prefers (some p) name = str_eq name p

abbrev pub preferred_or : Option String → String → String
preferred_or none name = name
preferred_or (some p) name = p

unfoldable pub role_for : String → Option String → List (String × RoleConfig) → Option String
role_for w preferred [] = none
role_for w preferred ((name, r) ∷ rest) =
    if str_eq r.workflow w
    then some (if prefers preferred name then preferred_or preferred name else name)
    else role_for w preferred rest

unfoldable pub agent_for : String → List (String × AgentConfig) → Option String
agent_for w [] = none
agent_for w ((name, a) ∷ rest) = if str_eq a.workflow w then some name else agent_for w rest

abbrev pub serves : String → Option AgentConfig → Bool
serves w none = false
serves w (some a) = str_eq a.workflow w

unfoldable pub agent_or_preferred :
    String → Option String → List (String × AgentConfig) → Option String
agent_or_preferred w none agents = agent_for w agents
agent_or_preferred w (some p) agents =
    if serves w (get_entry p agents) then some p else agent_for w agents

-- `resolve_agent_name_for_workflow`; none is its ConfigWorkflowNotFoundError.
unfoldable pub resolve_agent_name_for_workflow : AppConfig → String → Option String → Option String
resolve_agent_name_for_workflow c w preferred = elim (role_for w preferred c.roles) [
  | some name ↦ some name
  | none ↦ agent_or_preferred w preferred c.agents
]
