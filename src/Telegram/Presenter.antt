-- ===== src/Telegram/Presenter.antt =====
-- src/mergemate/interfaces/telegram/presenter.py. A `datetime` is its whole seconds; the print of an
-- integer, `str.strip`, and the reading and printing of a date are parameters.
use merge_mate.Base.{
  ℕ, ◌-◌, ◌*◌, ◌/◌, String, Bool, ◌||◌, Option, none, some, List, [], ◌∷◌, map, take, if◌then◌else◌,
  ltb, str_eq,
}
use merge_mate.Base.Texts.{join}
use merge_mate.Domain.Status.{RunStatus, same, value, queued, running, waiting_tool}
use merge_mate.Domain.Runs.{AgentRun}
use merge_mate.Persistence.ToolEvents.{ToolEvent}
use merge_mate.Application.RunStatus.{RunStatusSnapshot, latest_tool_event}
pub mod Elapsed

pub record Printing : Type 0 where
  pub number : ℕ → String
  pub strip : String → String
  pub date_text : ℕ → String

abbrev pub text_of : Option String → String
text_of none = ""
text_of (some t) = t

-- `text or fallback`
abbrev pub unless_empty : String → String → String
unless_empty t fallback = if str_eq t "" then fallback else t

-- `_remaining_seconds`: the estimate of a run is always there, and `-` stops at 0 as `max` makes it.
unfoldable pub remaining_seconds : AgentRun → ℕ → ℕ
remaining_seconds run now = run.estimate_seconds - (now - run.created_at)

abbrev pub is_waited_for : RunStatus → Bool
is_waited_for s = same s queued || (same s running || same s waiting_tool)

module _ (p : Printing) (now : ℕ) where
  -- `_estimate_line`
  unfoldable pub estimate_line : String → AgentRun → String
  unfolding remaining_seconds
  estimate_line prefix run =
      if is_waited_for run.status
      then join ""
          (prefix ∷ "Estimated remaining time: " ∷ p.number (remaining_seconds run now) ∷ "s." ∷ [])
      else ""

  abbrev pub detail_of : ToolEvent → String
  detail_of e = unless_empty (p.strip e.detail) "(no detail)"

  -- `_format_tool_event`, without the "- " in front of it.
  unfoldable pub tool_event_text : ToolEvent → String
  tool_event_text e =
      join "" (e.tool_name ∷ " " ∷ e.action ∷ " [" ∷ e.status ∷ "]: " ∷ detail_of e ∷ [])

  unfoldable pub format_tool_event : ToolEvent → String
  unfolding tool_event_text
  format_tool_event e = join "" ("- " ∷ tool_event_text e ∷ [])

  -- `_format_relative_age`: a count and its unit.
  unfoldable pub relative_age : ℕ → ℕ × String
  relative_age at =
      let elapsed = now - at in
      if ltb elapsed 60
      then (elapsed, "s ago")
      else if ltb elapsed 3600
      then (elapsed / 60, "m ago")
      else if ltb elapsed 86400
      then (elapsed / 3600, "h ago")
      else (elapsed / 86400, "d ago")

  unfoldable pub format_relative_age : ℕ → String
  unfolding relative_age
  format_relative_age at = let age = relative_age at in join "" (p.number age.0 ∷ age.1 ∷ [])

  -- `_format_tool_event_timestamp`; the times of the events that the repository gives can be read.
  unfoldable pub format_tool_event_timestamp : ToolEvent → String
  unfolding format_relative_age
  format_tool_event_timestamp e =
      join "" (p.date_text e.created_at ∷ " (" ∷ format_relative_age e.created_at ∷ ") " ∷ [])

  unfoldable pub format_acknowledgement : String → String → ℕ → String
  format_acknowledgement run_id agent estimate = join "" (
      "Request accepted. Run ID: "
      ∷ run_id
      ∷ ". Agent: "
      ∷ agent
      ∷ ". Status: planning. Estimated execution time after planning: "
      ∷ p.number estimate
      ∷ "s. You will receive the drafted plan shortly."
      ∷ [])

  unfoldable pub format_planning_in_progress : String → String
  format_planning_in_progress run_id = join "" (
      "Run " ∷ run_id
      ∷ " is still planning. Wait for the drafted plan before revising or approving it." ∷ [])

  unfoldable pub format_plan_for_confirmation : String → String → String → ℕ → String
  format_plan_for_confirmation run_id agent plan estimate = join "" (
      "Requirements captured for run "
      ∷ run_id
      ∷ ". Planning agent: "
      ∷ agent
      ∷ ". Estimated execution time after approval: "
      ∷ p.number estimate
      ∷ "s.\n\n"
      ∷ plan
      ∷ "\n\nReply with more requirements to revise the plan, or run /approve <run_id> to continue."
      ∷ [])

  unfoldable pub format_auto_execution_started : String → String → ℕ → String
  format_auto_execution_started run_id plan estimate = join "" (
      "Run "
      ∷ run_id
      ∷ " started automatically because confirmation is disabled. Estimated completion time: "
      ∷ p.number estimate
      ∷ "s.\n\n"
      ∷ plan
      ∷ [])

  unfoldable pub format_status : String → String → Option ℕ → String
  format_status run_id status none =
      join "" ("Run " ∷ run_id ∷ " is currently " ∷ status ∷ "." ∷ [])
  format_status run_id status (some estimate) = join "" (
      "Run "
      ∷ run_id
      ∷ " is currently "
      ∷ status
      ∷ ". Estimated remaining time: "
      ∷ p.number estimate
      ∷ "s."
      ∷ [])

  unfoldable pub tool_activity : List ToolEvent → String
  unfolding format_tool_event
  tool_activity [] = ""
  tool_activity (e ∷ events) =
      join ""
        ("\nRecent tool activity:\n" ∷ join "\n" (map format_tool_event (take 3 (e ∷ events))) ∷ [])

  unfoldable pub format_detailed_status : RunStatusSnapshot → String
  unfolding estimate_line tool_activity
  format_detailed_status s = join "" (
      "Run "
      ∷ s.run.run_id
      ∷ " is "
      ∷ value s.run.status
      ∷ ".\nCurrent stage: "
      ∷ s.run.current_stage
      ∷ ".\nReview iterations: "
      ∷ p.number s.run.review_iterations
      ∷ ".\nApproved: "
      ∷ (if s.run.approved then "yes" else "no")
      ∷ "."
      ∷ estimate_line "\n" s.run
      ∷ tool_activity s.tool_events
      ∷ [])

  unfoldable pub format_completion : String → String → String
  format_completion run_id result = join "" ("Run " ∷ run_id ∷ " completed.\n\n" ∷ result ∷ [])

  unfoldable pub format_failure : String → Option String → String
  format_failure run_id error =
      join "" ("Run " ∷ run_id ∷ " failed.\n\n" ∷ unless_empty (text_of error) "Unknown error" ∷ [])

  unfoldable pub format_cancelled : String → String
  format_cancelled run_id = join "" ("Run " ∷ run_id ∷ " was cancelled." ∷ [])

  unfoldable pub format_cancellation_not_allowed : String → String → String
  format_cancellation_not_allowed run_id status = join "" (
      "Run " ∷ run_id ∷ " cannot be cancelled because it is in status '" ∷ status
      ∷ "'. Only runs awaiting confirmation can be cancelled." ∷ [])

  unfoldable pub format_welcome : String → String
  format_welcome agent = join "" (
      "MergeMate is running. Send a normal message to capture requirements and draft a plan. "
      ∷ "The current default chat agent is " ∷ agent ∷ ". Use /status to inspect the latest run."
      ∷ [])

  unfoldable pub format_approval_started : String → String
  format_approval_started run_id = join "" (
      "Run " ∷ run_id
      ∷ " approved. Retrieving context, designing, implementing, testing, and reviewing now." ∷ [])

  unfoldable pub format_approval_not_needed : String → String → String
  format_approval_not_needed run_id status = join "" (
      "Run " ∷ run_id ∷ " was not re-approved because it is already in status '" ∷ status ∷ "'."
      ∷ [])

  abbrev pub latest_tool : Option ToolEvent → String
  latest_tool none = ""
  latest_tool (some e) = join "" (
      " Latest tool: "
      ∷ e.tool_name
      ∷ " "
      ∷ e.action
      ∷ " ["
      ∷ e.status
      ∷ "] - "
      ∷ detail_of e
      ∷ "."
      ∷ [])

  unfoldable pub format_progress_update : RunStatusSnapshot → String
  unfolding estimate_line
  format_progress_update s = join "" (
      "Run "
      ∷ s.run.run_id
      ∷ " update: status="
      ∷ value s.run.status
      ∷ ", stage="
      ∷ s.run.current_stage
      ∷ ", review_iterations="
      ∷ p.number s.run.review_iterations
      ∷ "."
      ∷ estimate_line " " s.run
      ∷ latest_tool (latest_tool_event s)
      ∷ [])

  unfoldable pub history_line : ToolEvent → String
  unfolding format_tool_event_timestamp tool_event_text
  history_line e = join "" ("- " ∷ format_tool_event_timestamp e ∷ tool_event_text e ∷ [])

  unfoldable pub format_tool_history : RunStatusSnapshot → String
  unfolding history_line
  format_tool_history s = elim s.tool_events [
    | [] ↦ join "" ("No tool activity recorded for run " ∷ s.run.run_id ∷ "." ∷ [])
    | e ∷ events ↦ join "\n" (
        join "" ("Tool activity for run " ∷ s.run.run_id ∷ ":" ∷ [])
        ∷ map history_line (e ∷ events))
  ]
