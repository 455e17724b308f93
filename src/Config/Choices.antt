-- ===== src/Config/Choices.antt =====
-- Which agent a workflow gets, and what a preferred agent changes.
use merge_mate.Base.{
  String, ◌≡◌, refl, sym, ap, ◌∙◌, false, Option, none, some, List, [], ◌∷◌, eq_iff, inl, inr,
  Option-cases, arith,
}
use merge_mate.Config.{
  AppConfig, AgentConfig, RoleConfig, get_entry, roles_of, populate_roles, role_for, agent_for,
  serves, agent_or_preferred, resolve_agent_name_for_workflow,
}

-- The preferred name is returned only where it is the name of the role that was found.
role_for-preferred :
    (w : String) (p : Option String) (roles : List (String × RoleConfig))
    → role_for w p roles ≡ role_for w none roles
unfolding role_for
role_for-preferred w p [] = refl
role_for-preferred w none roles = refl
role_for-preferred w (some p) ((name, r) ∷ rest) =
    ground (arith, role_for-preferred w (some p) rest, eq_iff name p)

role_for-roles_of :
    (w : String) (agents : List (String × AgentConfig))
    → role_for w none (roles_of agents) ≡ agent_for w agents
unfolding role_for roles_of agent_for
role_for-roles_of w [] = refl
role_for-roles_of w ((name, a) ∷ rest) = ground (arith, role_for-roles_of w rest)

agent_for-absent :
    (w : String) (agents : List (String × AgentConfig)) (p : String)
    → agent_for w agents ≡ none
    → serves w (get_entry p agents) ≡ false
unfolding agent_for get_entry
agent_for-absent w [] p h = refl
agent_for-absent w ((name, a) ∷ rest) p h = ground (arith, agent_for-absent w rest p)

pub agent_or_preferred-absent :
    (w : String) (agents : List (String × AgentConfig)) (p : Option String)
    → agent_for w agents ≡ none
    → agent_or_preferred w p agents ≡ none
unfolding agent_or_preferred
agent_or_preferred-absent w agents none h = h
agent_or_preferred-absent w agents (some p) h = rw (agent_for-absent w agents p h) h

pub resolve-role :
    (c : AppConfig) (w : String) (p : Option String) (name : String)
    → role_for w none c.roles ≡ some name
    → resolve_agent_name_for_workflow c w p ≡ some name
unfolding resolve_agent_name_for_workflow
resolve-role c w p name h =
    rw (role_for-preferred w p c.roles ∙ h, resolve_agent_name_for_workflow) refl

pub resolve-no_role :
    (c : AppConfig) (w : String) (p : Option String)
    → role_for w none c.roles ≡ none
    → resolve_agent_name_for_workflow c w p ≡ agent_or_preferred w p c.agents
unfolding resolve_agent_name_for_workflow agent_or_preferred
resolve-no_role c w p h =
    rw (role_for-preferred w p c.roles ∙ h, resolve_agent_name_for_workflow) refl

populate_roles-roles : (c : AppConfig) → c.roles ≡ [] → (populate_roles c).roles ≡ roles_of c.agents
unfolding populate_roles
populate_roles-roles c empty = rw empty refl

populate_roles-agents : (c : AppConfig) → (populate_roles c).agents ≡ c.agents
unfolding populate_roles
populate_roles-agents c = refl

-- In a configuration without roles of its own, the agent that resolve_agent_name_for_workflow
-- gives for a workflow is the first agent of that workflow, whatever the preferred agent.
pub resolve-populated :
    (c : AppConfig) (w : String) (p : Option String)
    → c.roles ≡ []
    → resolve_agent_name_for_workflow (populate_roles c) w p ≡ agent_for w c.agents
resolve-populated c w p empty =
    let role : role_for w none (populate_roles c).roles ≡ agent_for w c.agents =
      ap (role_for w none) (populate_roles-roles c empty) ∙ role_for-roles_of w c.agents in
    elim (Option-cases (agent_for w c.agents)) [
      | inl absent ↦
          resolve-no_role (populate_roles c) w p (role ∙ absent)
          ∙ ap (agent_or_preferred w p) (populate_roles-agents c)
          ∙ agent_or_preferred-absent w c.agents p absent
          ∙ sym absent
      | inr (name, present) ↦
          resolve-role (populate_roles c) w p name (role ∙ present) ∙ sym present
    ]
