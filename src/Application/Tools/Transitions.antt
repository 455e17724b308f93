-- ===== src/Application/Tools/Transitions.antt =====
-- What the service of the tools does to the status of a run.
use merge_mate.Base.{
  ℕ, String, ◌≡◌, refl, ◌∙◌, Bool, true, false, ◌&&◌, Option, none, some, Bool-cases, inl, inr,
  if◌then◌else◌, arith, elem, str_eq, Option-cases,
}
use merge_mate.Domain.Status.{same, is_terminal, running, waiting_tool, tool_stage}
use merge_mate.Domain.Runs.{AgentRun}
use merge_mate.Persistence.RunRepository.{get, status_row}
use merge_mate.Persistence.RunRepository.Writes.{IsRunTable, try_update_status_cas}
use merge_mate.World.{World, Outcome, ok, raised, on_runs}
use merge_mate.Application.Tools.{
  ToolSetup, ToolResult, Payload, blocked, record_tool_event, record_event, execute_enabled_tool,
  execute_configured, configured_tools, transition_run_for_tool, transition_of, moving,
}

-- The row after a call of the service before a tool or after it.
abbrev pub moved_run : Bool → String → String → ℕ → AgentRun → AgentRun
moved_run true tool resume now r =
    if same r.status running
    then status_row (moving running waiting_tool (tool_stage tool)) now r r
    else r
moved_run false tool resume now r =
    if same r.status waiting_tool
    then status_row (moving waiting_tool running resume) now r r
    else r

module _ (id tool resume : String) (w : World) (r : AgentRun) (k : IsRunTable w.runs)
    (found : get id w.runs ≡ some r) where
  transition_of_lem :
      (entering : Bool)
      → let (out, u) = transition_of id tool resume entering (some r) w in
        (out ≡ ok tt) × (get id u.runs ≡ some (moved_run entering tool resume w.clock r))
  unfolding transition_of on_runs
  transition_of_lem true =
      let row =
        (try_update_status_cas (moving running waiting_tool (tool_stage tool)) w.clock id w.runs r k
          found).0 in
      elim (Bool-cases (is_terminal r.status)) [
        | inl y ↦
            let still : same r.status running ≡ false = ground arith in rw (y, still) (refl, found)
        | inr n ↦ rw n (refl, row)
      ]
  transition_of_lem false =
      let row =
        (try_update_status_cas (moving waiting_tool running resume) w.clock id w.runs r k
          found).0 in
      elim (Bool-cases (is_terminal r.status)) [
        | inl y ↦
            let still : same r.status waiting_tool ≡ false = ground arith in
            rw (y, still) (refl, found)
        | inr n ↦ elim (Bool-cases (same r.status waiting_tool)) [
          | inl y ↦ rw (n, y) (refl, row ∙ rw y refl)
          | inr o ↦ rw (n, o) (refl, found)
        ]
      ]

-- Before a tool that blocks its run, a running run is set to waiting for the tool, and after it a
-- run that waits for a tool is set back to running; a run of any other status stays as it is.
pub transition_run_for_tool_lem :
    (s : ToolSetup) (id tool resume : String) (w : World) (r : AgentRun) (entering : Bool)
    → IsRunTable w.runs
    → get id w.runs ≡ some r
    → s.has_run_repository ≡ true
    → let (out, u) = transition_run_for_tool s (some id) true tool resume entering w in
      (out ≡ ok tt) × (get id u.runs ≡ some (moved_run entering tool resume w.clock r))
unfolding transition_run_for_tool
transition_run_for_tool_lem s id tool resume w r entering k found has =
    rw (has) (rw found (transition_of_lem id tool resume w r k found entering))

abbrev pub says_blocked : Outcome ToolResult → Bool
says_blocked (ok r) = elim r.status [ none ↦ false | some t ↦ str_eq t "blocked" ]
says_blocked (raised e) = false

abbrev pub is_enabled : ToolSetup → String → String → Bool
is_enabled s agent tool =
    elem tool (configured_tools s (s.agent_tools agent))
    && elim (s.get_tool tool) [ none ↦ false | some _ ↦ true ]

-- What a refused tool leaves.
abbrev pub IsBlocked : World → Outcome ToolResult × World → Type 0
IsBlocked w out = (says_blocked out.0 ≡ true) × (out.1.runs ≡ w.runs) × (out.1.jobs ≡ w.jobs)

module _ (s : ToolSetup) (tool : String) (w : World) where
  blocked-IsBlocked :
      (run action : Option String) (detail : String)
      → IsBlocked w (blocked s run tool action detail w)
  unfolding blocked record_tool_event record_event
  blocked-IsBlocked none action detail = (refl, refl, refl)
  blocked-IsBlocked (some id) action detail = elim (Bool-cases s.has_event_repository) [
    | inl y ↦ rw y (refl, refl, refl)
    | inr n ↦ rw n (refl, refl, refl)
  ]

  -- A tool that is not configured for the agent or not available is answered as blocked, and no
  -- run and no job changes.
  pub execute_enabled_tool-IsBlocked :
      (agent : String) (payload : Payload) (run : Option String) (resume : String)
      → is_enabled s agent tool ≡ false
      → IsBlocked w (execute_enabled_tool s agent tool payload run resume w)
  unfolding execute_enabled_tool execute_configured
  execute_enabled_tool-IsBlocked agent payload run resume off =
      elim (Bool-cases (elem tool (configured_tools s (s.agent_tools agent)))) [
        | inr n ↦ rw n (blocked-IsBlocked run _ _)
        | inl y ↦ elim (Option-cases (s.get_tool tool)) [
          | inl e ↦ rw y (rw e (blocked-IsBlocked run _ _))
          | inr (call, e) ↦ cc (rw (y, e) at off)
        ]
      ]
