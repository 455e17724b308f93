-- ===== src/Config/Validity.antt =====
-- What an accepted configuration promises to the code that chooses agents and providers.
use merge_mate.Base.{
  String, ◌≡◌, refl, ◌∙◌, Bool, true, false, ◌&&◌, ◌||◌, Option, none, some, List, [], ◌∷◌, str_eq,
  eq_iff, Bool-cases, inl, inr, Option-cases, arith, elem, All, select,
}
use merge_mate.Config.{
  AppConfig, AgentConfig, get_entry, roles_of, populate_roles, agent_for, serves, workflows_of,
  unknown_of, first_unknown, Fault, repeated, missing_of, none_or, validate_workflows,
  validate_providers, validate, multi_stage_workflows, names_role, names_agent,
  resolve_agent_name_for_workflow, agent_or_preferred, role_for, or_default, or_names,
  resolve_agent_provider_names, duplicate_workflows, missing_workflows,
}
use merge_mate.Config.Choices.{resolve-role, resolve-no_role}

none_or-none :
    (fault : List String → Fault) (ws : List String) (next : Option Fault)
    → none_or fault ws next ≡ none
    → (ws ≡ []) × (next ≡ none)
unfolding none_or
none_or-none fault [] next h = (refl, h)
none_or-none fault (w ∷ ws) next h = ground (arith, h)

-- The lists of workflows that are accepted: none is repeated, planning is among them, and no stage of
-- generate_code is missing if it is among them.
validate_workflows-none :
    (ws : List String)
    → validate_workflows ws ≡ none
    → (repeated ws ≡ [])
      × (elem "planning" ws ≡ true)
      × (elem "generate_code" ws ≡ true → missing_of ws ≡ [])
unfolding validate_workflows
validate_workflows-none ws h =
    let both = none_or-none duplicate_workflows (repeated ws) _ h in
    let rest = both.1 in
    (
      both.0,
      ground (arith, rest),
      λ code. (none_or-none missing_workflows (missing_of ws) none (ground (arith, rest, code))).0,
    )

validate-none :
    (c : AppConfig)
    → validate c ≡ none
    → (elem c.default_provider c.providers ≡ true)
      × (first_unknown c.providers c.agents ≡ none)
      × (validate_workflows (workflows_of c.agents) ≡ none)
unfolding validate validate_providers
validate-none c h = ground (arith, h)

elem-tail :
    (x w : String) (xs : List String)
    → elem w (x ∷ xs) ≡ true
    → str_eq x w ≡ false
    → elem w xs ≡ true
unfolding elem
elem-tail x w xs h e = ground (arith, h, e)

agent_for-present :
    (w : String) (agents : List (String × AgentConfig))
    → elem w (workflows_of agents) ≡ true
    → (name : String) × (agent_for w agents ≡ some name)
unfolding agent_for workflows_of elem
agent_for-present w [] h = ("", ground (arith, h))
agent_for-present w ((name, a) ∷ rest) h = elim (Bool-cases (str_eq a.workflow w)) [
  | inl e ↦ rw e (name, refl)
  | inr e ↦
      let later : elem w (workflows_of rest) ≡ true =
        elem-tail a.workflow w (workflows_of rest) h e in
      rw e (agent_for-present w rest later)
]

agent_or_preferred-present :
    (w : String) (p : Option String) (agents : List (String × AgentConfig))
    → elem w (workflows_of agents) ≡ true
    → (name : String) × (agent_or_preferred w p agents ≡ some name)
unfolding agent_or_preferred
agent_or_preferred-present w none agents h = agent_for-present w agents h
agent_or_preferred-present w (some p) agents h = elim (Bool-cases (serves w (get_entry p agents))) [
  | inl e ↦ rw e (p, refl)
  | inr e ↦ rw e (agent_for-present w agents h)
]

abbrev pub IsResolved : AppConfig → String → Option String → Type 0
IsResolved c w p = (name : String) × (resolve_agent_name_for_workflow c w p ≡ some name)

-- The two other lists
resolve-served :
    (c : AppConfig) (w : String) (p : Option String)
    → elem w (workflows_of c.agents) ≡ true
    → IsResolved c w p
resolve-served c w p h = elim (Option-cases (role_for w none c.roles)) [
  | inr (name, found) ↦ (name, resolve-role c w p name found)
  | inl absent ↦
      let (name, present) = agent_or_preferred-present w p c.agents h in
      (name, resolve-no_role c w p absent ∙ present)
]

elem-missing :
    (ws : List String) (w : String)
    → missing_of ws ≡ []
    → elem w multi_stage_workflows ≡ true
    → elem w ws ≡ true
unfolding missing_of select elem
elem-missing ws w none_missing h =
    ground (arith, none_missing, h, eq_iff "design" w, eq_iff "testing" w, eq_iff "review" w)

abbrev pub is_needed : AppConfig → String → Bool
is_needed c w =
    str_eq w "planning"
    || (elem "generate_code" (workflows_of c.agents) && elem w multi_stage_workflows)

-- If a configuration is accepted, resolve_agent_name_for_workflow finds an agent for planning and,
-- if it has an agent for generate_code, for design, testing and review.
pub validate-resolves :
    (c : AppConfig) (w : String) (p : Option String)
    → validate c ≡ none
    → is_needed c w ≡ true
    → IsResolved c w p
validate-resolves c w p valid needed =
    let accepted = validate_workflows-none (workflows_of c.agents) (validate-none c valid).2 in
    resolve-served c w p (elim (Bool-cases (str_eq w "planning")) [
      | inl e ↦ ground (arith, accepted.1, e, eq_iff w "planning")
      | inr e ↦
          elem-missing (workflows_of c.agents) w (accepted.2 (ground (arith, needed, e)))
            (ground (arith, needed, e))
    ])

-- Providers that are all configured.
All-unknown_of :
    (known ps : List String) → unknown_of known ps ≡ none → All (λ p. elem p known ≡ true) ps
unfolding unknown_of
All-unknown_of known [] h = tt
All-unknown_of known (p ∷ ps) h = elim (Bool-cases (elem p known)) [
  | inl e ↦ (e, All-unknown_of known ps (ground (arith, h, e)))
  | inr e ↦ ground (arith, h, e)
]

first_unknown-get_entry :
    (known : List String) (agents : List (String × AgentConfig)) (name : String)
    → first_unknown known agents ≡ none
    → All (λ p. elem p known ≡ true) (names_agent (get_entry name agents))
unfolding first_unknown get_entry
first_unknown-get_entry known [] name h = tt
first_unknown-get_entry known ((k, a) ∷ rest) name h =
    let first : unknown_of known a.provider_names ≡ none = ground (arith, h) in
    let others : first_unknown known rest ≡ none = ground (arith, h) in
    elim (Bool-cases (str_eq k name)) [
      | inl e ↦ rw e (All-unknown_of known a.provider_names first)
      | inr e ↦ rw e (first_unknown-get_entry known rest name others)
    ]

names_role-roles_of :
    (agents : List (String × AgentConfig)) (name : String)
    → names_role (get_entry name (roles_of agents)) ≡ names_agent (get_entry name agents)
unfolding get_entry roles_of
names_role-roles_of [] name = refl
names_role-roles_of ((k, a) ∷ rest) name = ground (arith, names_role-roles_of rest name)

or_default-All :
    (P : String → Type 0) (fallback : String) (names : List String)
    → P fallback
    → All P names
    → All P (or_default fallback names)
or_default-All P fallback [] f h = (f, tt)
or_default-All P fallback (n ∷ ns) f h = h

or_names-or_default :
    (fallback : String) (names : List String)
    → or_names names (or_default fallback names) ≡ or_default fallback names
or_names-or_default fallback [] = refl
or_names-or_default fallback (n ∷ ns) = refl

-- A populated role has the names of its agent.
provider_names-populated :
    (c : AppConfig) (agent : String)
    → c.roles ≡ []
    → resolve_agent_provider_names (populate_roles c) agent
      ≡ or_default c.default_provider (names_agent (get_entry agent c.agents))
unfolding resolve_agent_provider_names populate_roles get_entry
provider_names-populated c agent empty =
    rw (empty, names_role-roles_of c.agents agent, or_names-or_default c.default_provider _) refl

pub resolve_agent_provider_names-IsKnown :
    (c : AppConfig) (agent : String)
    → c.roles ≡ []
    → validate c ≡ none
    → All (λ p. elem p c.providers ≡ true) (resolve_agent_provider_names (populate_roles c) agent)
resolve_agent_provider_names-IsKnown c agent empty valid =
    rw (provider_names-populated c agent empty) (
      or_default-All (λ p. elem p c.providers ≡ true) c.default_provider _ (validate-none c valid).0
        (first_unknown-get_entry c.providers c.agents agent (validate-none c valid).1))
