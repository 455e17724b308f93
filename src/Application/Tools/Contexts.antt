-- ===== src/Application/Tools/Contexts.antt =====
-- src/mergemate/application/services/tool_service.py: the enabled tools of an agent, and the context that
-- the read-only ones among them give to a run.
use mathlib.Core.Path.{subst}
use merge_mate.Base.{
  String, Bool, true, false, ◌&&◌, ◌||◌, not, Option, none, some, List, [], ◌∷◌, ◌++◌, ◌≡◌, refl,
  map, str_eq, eq_iff, elem, if◌then◌else◌, text_append, select, Bool-cases, inl, inr, arith,
}
use merge_mate.Base.Texts.{join}
use merge_mate.World.{Action, pure, raise, other, ◌>>=◌}
use merge_mate.Application.Tools.{
  ToolResult, ToolMetadata, Payload, ToolSetup, configured_tools, execute_configured,
  execute_enabled_tool, text_or,
}

abbrev pub is_available : {A : Type 0} → Option A → Bool
is_available none = false
is_available (some a) = true

-- `_is_runtime_context_metadata`
abbrev pub is_runtime_context_metadata : ToolMetadata → Bool
is_runtime_context_metadata m =
    str_eq m.runtime_mode "context" && (is_available m.default_action && m.read_only)

-- `context_key or tool_name`
abbrev key_or : String → Option String → String
key_or tool none = tool
key_or tool (some k) = if str_eq k "" then tool else k

abbrev or_no_detail : String → String
or_no_detail t = if str_eq t "" then "(no detail)" else t

module _ (s : ToolSetup) where
  unfoldable pub list_enabled_tools : String → List String
  list_enabled_tools agent =
      select (λ t. is_available (s.get_tool t)) (configured_tools s (s.agent_tools agent))

  -- `result['status']` raises a KeyError for a result without a status.
  abbrev pub result_lines : String → ToolMetadata → ToolResult → Action (List String)
  result_lines tool m r = elim r.status [
    | none ↦ raise other "'status'"
    | some status ↦ pure (
        ""
        ∷ text_append (key_or tool m.context_key) (text_append " (" (text_append status "):"))
        ∷ or_no_detail (s.strip (text_or "" r.detail))
        ∷ [])
  ]

  -- The lines of one tool; none for a tool that gives no context.
  unfoldable pub tool_lines :
      String → String → String → String → Option ToolMetadata → Action (List String)
  tool_lines run agent resume tool none = pure []
  tool_lines run agent resume tool (some m) =
      if not (is_runtime_context_metadata m) then pure [] else do
        r ←
            execute_enabled_tool s agent tool (("action", text_or "" m.default_action) ∷ [])
              (some run) resume
        result_lines tool m r

  unfoldable pub context_lines : String → String → String → List String → Action (List String)
  unfolding tool_lines
  context_lines run agent resume [] = pure []
  context_lines run agent resume (t ∷ ts) = do
    lines ← tool_lines run agent resume t (s.get_tool_metadata t)
    rest ← context_lines run agent resume ts
    pure (lines ++ rest)

  abbrev pub context_of : String → String → String → List String → Action String
  context_of run agent resume [] = pure ""
  context_of run agent resume (t ∷ ts) = do
    lines ← context_lines run agent resume (t ∷ ts)
    pure (
        s.strip (join "\n" (("Enabled runtime tools:" ∷ map (text_append "- ") (t ∷ ts)) ++ lines)))

  unfoldable pub build_runtime_tool_context : String → String → String → Action String
  unfolding list_enabled_tools context_lines
  build_runtime_tool_context run agent resume =
      context_of run agent resume (list_enabled_tools agent)

  elem-select :
      (p : String → Bool) (t : String) (ts : List String)
      → elem t (select p ts) ≡ true
      → (elem t ts ≡ true) × (p t ≡ true)
  unfolding elem select
  elem-select p t [] h = ground (arith, h)
  elem-select p t (x ∷ xs) h = elim (Bool-cases (p x)) [
    | inl e ↦ elim (Bool-cases (str_eq x t)) [
      | inl same ↦
          let eq : x ≡ t = (eq_iff x t).0 same in (rw same refl, subst (λ u. p u ≡ true) eq e)
      | inr apart ↦
          let h' : (str_eq x t || elem t (select p xs)) ≡ true = rw e at h in
          let later = elem-select p t xs (ground (arith, h', apart)) in (rw apart later.0, later.1)
    ]
    | inr e ↦ let later = elem-select p t xs (rw e at h) in (ground (arith, later), later.1)
  ]

  -- A tool of the list of enabled tools is configured and available, so its execution is not blocked
  -- for either reason.
  pub list_enabled_tools-executed :
      (agent tool resume : String) (payload : Payload) (run : Option String)
      → elem tool (list_enabled_tools agent) ≡ true
      → (execute_enabled_tool s agent tool payload run resume
          ≡ execute_configured s run tool resume payload (s.get_tool tool))
        × (is_available (s.get_tool tool) ≡ true)
  unfolding list_enabled_tools execute_enabled_tool
  list_enabled_tools-executed agent tool resume payload run h =
      let both =
        elem-select (λ t. is_available (s.get_tool t)) tool
          (configured_tools s (s.agent_tools agent)) h in
      (rw (both.0) refl, both.1)
