-- ===== src/Application/Tools.antt =====
-- src/mergemate/application/services/tool_service.py: the execution of an enabled tool, and the status
-- of its run meanwhile. A payload is the list of its entries.
pub mod Transitions
pub mod Contexts
use merge_mate.Base.{
  ℕ, String, Bool, true, false, ◌&&◌, ◌||◌, not, Option, none, some, List, [], ◌∷◌, ◌++◌, str_eq,
  elem, if◌then◌else◌, text_append,
}
use merge_mate.Domain.Status.{
  RunStatus, same, is_terminal, running, waiting_tool, tool_stage, value,
}
use merge_mate.Domain.Runs.{AgentRun}
use merge_mate.Persistence.RunRepository.{get, StatusUpdate, try_update_status}
use merge_mate.Persistence.ToolEvents.{ToolEvent}
use merge_mate.World.{
  World, Action, Outcome, ok, raised, Error, pure, gets, handle, try_except, continue, ◌>>=◌, ◌>>◌,
  on_runs, is_exception,
}

-- The dictionary that a tool returns, with the keys that the service reads.
pub record ToolResult : Type 0 where
  pub status : Option String
  pub detail : Option String

-- The part of ToolMetadata that the service reads here.
pub record ToolMetadata : Type 0 where
  pub runtime_mode : String
  pub default_action : Option String
  pub read_only : Bool
  pub context_key : Option String
  pub blocks_run_state : Option String

abbrev pub Payload : Type 0
Payload = List (String × String)

-- What the constructor is given: the tools of the agents, the registry, and whether there are the two
-- repositories; `strip` is `str.strip`, and `class_name` the name of an exception's class.
pub record ToolSetup : Type 0 where
  pub agent_tools : String → Option (List String)
  pub get_tool : String → Option (Payload → Action ToolResult)
  pub get_tool_metadata : String → Option ToolMetadata
  pub has_run_repository : Bool
  pub has_event_repository : Bool
  pub strip : String → String
  pub class_name : Error → String

-- `dict.get`
pub payload_get : String → Payload → Option String
payload_get key [] = none
payload_get key ((k, v) ∷ rest) = if str_eq k key then some v else payload_get key rest

pub text_or : String → Option String → String
text_or fallback none = fallback
text_or fallback (some t) = t

-- `action or "invoke"`
pub action_or_invoke : Option String → String
action_or_invoke none = "invoke"
action_or_invoke (some a) = if str_eq a "" then "invoke" else a

-- `SQLiteToolEventRepository.record`
pub record_event : String → String → String → String → String → Action (Unit {0})
record_event run tool action status detail w = (
  ok tt,
  record w {
    events =
        w.events
        ++ record {
          run_id = run;
          tool_name = tool;
          action = action;
          status = status;
          detail = detail;
          created_at = w.clock;
        }
          ∷ [];
  },
)

-- The update of a run's status that asks for the status before.
abbrev pub moving : RunStatus → RunStatus → String → StatusUpdate
moving before after at = record {
  status = after;
  expected_current_status = some before;
  current_stage = some at;
  result_text = none;
  error_text = none;
}

abbrev pub ends : Option AgentRun → Bool
ends none = false
ends (some r) = is_terminal r.status

abbrev pub not_waiting : Option AgentRun → Bool
not_waiting none = false
not_waiting (some r) = not (same r.status waiting_tool)

pub try_status : StatusUpdate → String → Action (Unit {0})
try_status u id = do on_runs (λ now. try_update_status u now id); pure tt

pub transition_of : String → String → String → Bool → Option AgentRun → Action (Unit {0})
unfolding try_status
transition_of id tool resume entering current =
    if ends current
    then pure tt
    else if entering
    then try_status (moving running waiting_tool (tool_stage tool)) id
    else if not_waiting current
    then pure tt
    else try_status (moving waiting_tool running resume) id

-- Whether the metadata says that the tool makes its run wait.
pub blocks : Option ToolMetadata → Bool
blocks none = false
blocks (some m) = elim m.blocks_run_state [ none ↦ false | some t ↦ str_eq t "waiting_tool" ]

module _ (s : ToolSetup) where
  pub transition_run : String → String → String → Bool → Action (Unit {0})
  unfolding transition_of
  transition_run id tool resume entering = do
    current ← gets (λ (w : World). get id w.runs)
    transition_of id tool resume entering current

  -- `_transition_run_for_tool`
  unfoldable pub transition_run_for_tool :
      Option String → Bool → String → String → Bool → Action (Unit {0})
  unfolding transition_run
  transition_run_for_tool none blocking tool resume entering = pure tt
  transition_run_for_tool (some id) blocking tool resume entering =
      if s.has_run_repository && blocking then transition_run id tool resume entering else pure tt

  -- `_record_tool_event`
  unfoldable pub record_tool_event :
      Option String → String → Option String → String → String → Action (Unit {0})
  unfolding record_event action_or_invoke
  record_tool_event none tool action status detail = pure tt
  record_tool_event (some id) tool action status detail =
      if s.has_event_repository
      then record_event id tool (action_or_invoke action) status detail
      else pure tt

  -- `_tool_exception_result`
  unfoldable pub tool_exception_result : String → Error → ToolResult
  tool_exception_result tool e =
      let text = s.strip e.text in
      let detail = if str_eq text "" then s.class_name e else text in
      record {
        status = some "error";
        detail = some (text_append "Tool " (text_append tool (text_append " failed: " detail)));
      }

  pub blocked : Option String → String → Option String → String → Action ToolResult
  unfolding record_tool_event
  blocked run tool action detail = do
    record_tool_event run tool action "blocked" detail
    pure (record { status = some "blocked"; detail = some detail })

  pub invoke_tool :
      Option String → String → String → Payload → (Payload → Action ToolResult) → Action ToolResult
  unfolding record_tool_event transition_run_for_tool tool_exception_result text_or
  invoke_tool run tool resume payload call = do
    let action = payload_get "action" payload
    let blocking = blocks (s.get_tool_metadata tool)
    transition_run_for_tool run blocking tool resume true
    record_tool_event run tool action "started" "Invoking tool."
    result ← try_except is_exception (call payload) (λ e. pure (tool_exception_result tool e))
    record_tool_event run tool action (text_or "unknown" result.status) (text_or "" result.detail)
    transition_run_for_tool run blocking tool resume false
    pure result

  pub execute_configured :
      Option String
      → String
      → String
      → Payload
      → Option (Payload → Action ToolResult)
      → Action ToolResult
  unfolding invoke_tool blocked
  execute_configured run tool resume payload none =
      blocked run tool (payload_get "action" payload)
        (text_append "Tool " (text_append tool " is not available."))
  execute_configured run tool resume payload (some call) = invoke_tool run tool resume payload call

  abbrev pub configured_tools : Option (List String) → List String
  configured_tools none = []
  configured_tools (some tools) = tools

  -- `execute_enabled_tool`
  unfoldable pub execute_enabled_tool :
      String → String → Payload → Option String → String → Action ToolResult
  unfolding execute_configured
  execute_enabled_tool agent tool payload run resume =
      if not (elem tool (configured_tools (s.agent_tools agent)))
      then blocked run tool (payload_get "action" payload) (
          text_append "Tool "
            (text_append tool (text_append " is not enabled for agent " (text_append agent "."))))
      else execute_configured run tool resume payload (s.get_tool tool)
