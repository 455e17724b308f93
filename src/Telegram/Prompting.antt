-- ===== src/Telegram/Prompting.antt =====
-- src/mergemate/interfaces/telegram/handlers.py, `handle_prompt`: what a message to the chat does, and
-- the planning that goes on behind it.
use merge_mate.Base.{
  ℕ, String, Bool, true, false, not, Option, none, some, List, [], ◌∷◌, ◌≡◌, refl, if◌then◌else◌,
  str_eq, text_append, Bool-cases, inl, inr,
}
use merge_mate.Config.{AppConfig, AgentConfig, get_entry, resolve_agent_name_for_workflow}
use merge_mate.Domain.Status.{same, awaiting_confirmation}
use merge_mate.Domain.Runs.{AgentRun, ChatId}
use merge_mate.Domain.Workflows.{is_user_facing_workflow}
use merge_mate.World.{
  World, Action, Outcome, ok, raised, Error, value_error, pure, raise, try_else,
  is_prompt_submission,
}
use merge_mate.Application.RunStatus.{RunStatusSnapshot}
use merge_mate.Application.RunStatus
use merge_mate.Application.Submission.{Setup, SubmitPromptResult, execute, complete_planning}
use merge_mate.Application.Submission.Confirmation.{revise_plan_for_chat}
use merge_mate.Application.Stages.{not_found_text}
use merge_mate.Telegram.Messages.{Text, split_telegram_message}

-- A message, and the texts of the presenter.
pub record Incoming : Type 0 where
  pub chat_id : ChatId
  pub user_id : ChatId
  pub message_text : String
  pub strip : String → String
  pub text_of : String → Text
  pub format_planning_in_progress : String → Text
  pub format_plan_for_confirmation : String → String → String → ℕ → Text
  pub format_acknowledgement : String → String → ℕ → Text

abbrev parts : Option (List Text) → List Text
parts none = []
parts (some out) = out

abbrev pub in_parts : Text → List Text
in_parts t = parts (split_telegram_message 4000 t)

-- `text or fallback`
abbrev pub or_else : String → Option String → String
or_else fallback none = fallback
or_else fallback (some t) = if str_eq t "" then fallback else t

abbrev pub is_entry : Option AgentConfig → Bool
is_entry none = false
is_entry (some a) = is_user_facing_workflow a.workflow

abbrev pub workflow_of : Option AgentConfig → String
workflow_of none = "generate_code"
workflow_of (some a) = a.workflow

abbrev pub error_of : Outcome (Option RunStatusSnapshot) → Option String
error_of (ok (some s)) = s.run.error_text
error_of _ = none

module _ (c : AppConfig) (s : Setup) (m : Incoming) where
  abbrev pub status_of : Option String → World → Outcome (Option RunStatusSnapshot)
  status_of id w = RunStatus.execute (some w.events) 5 id (some m.chat_id) w.runs

  abbrev pub error_reply : String → Error → Action (List Text)
  error_reply id e w =
      (ok (in_parts (m.text_of (or_else e.text (error_of (status_of (some id) w))))), w)

  -- The name of the planning agent; none is its ConfigWorkflowNotFoundError.
  abbrev pub with_planner : (String → Action (List Text)) → Action (List Text)
  with_planner next = elim (resolve_agent_name_for_workflow c "planning" none) [
    | none ↦ raise value_error (not_found_text c "planning")
    | some planner ↦ next planner
  ]

  abbrev pub revision_reply : Option SubmitPromptResult → Action (List Text)
  revision_reply none = pure (m.text_of "Could not revise the current plan." ∷ [])
  revision_reply (some r) = with_planner (λ planner. pure (
      in_parts (
        m.format_plan_for_confirmation r.run_id planner (or_else "" r.plan_text)
          r.estimate_seconds)))

  -- A message while the latest run waits for its confirmation.
  abbrev pub revise : AgentRun → Action (List Text)
  revise r =
      try_else is_prompt_submission
        (revise_plan_for_chat s r.run_id m.message_text (some m.chat_id)) (error_reply r.run_id)
        revision_reply

  unfoldable pub message_to_waiting : AgentRun → Action (List Text)
  message_to_waiting r =
      if str_eq (or_else "" r.plan_text) ""
      then pure (m.format_planning_in_progress r.run_id ∷ [])
      else revise r

  -- A message that starts a new run; the id is the one that `execute` draws.
  unfoldable pub message_to_submit : Action (List Text)
  message_to_submit w =
      try_else is_prompt_submission
        (execute s m.chat_id m.user_id c.default_agent
          (workflow_of (get_entry c.default_agent c.agents)) m.message_text)
        (error_reply (s.uuid w.drawn))
        (λ r.
          pure (in_parts (m.format_acknowledgement r.run_id c.default_agent r.estimate_seconds)))
        w

  abbrev pub answer_latest : Outcome (Option RunStatusSnapshot) → Action (List Text)
  answer_latest (ok (some latest)) =
      if same latest.run.status awaiting_confirmation
      then message_to_waiting latest.run
      else message_to_submit
  answer_latest (ok none) = message_to_submit
  answer_latest (raised e) = λ w. (raised e, w)

  abbrev unavailable : String
  unavailable =
      text_append "The configured default agent is not available for Telegram chat entry. "
        "Use generate_code, debug_code, or explain_code as the default agent workflow."

  -- `handle_prompt`, up to the task that it starts behind a submission.
  unfoldable pub handle_prompt : Action (List Text)
  unfolding message_to_waiting message_to_submit
  handle_prompt w =
      if not (is_entry (get_entry c.default_agent c.agents))
      then (ok (m.text_of unavailable ∷ []), w)
      else if str_eq (m.strip m.message_text) ""
      then (ok [], w)
      else answer_latest (status_of none w) w

  abbrev pub planned_reply : Option SubmitPromptResult → Action (List Text)
  planned_reply none = pure []
  planned_reply (some r) =
      if str_eq (or_else "" r.plan_text) ""
      then pure []
      else with_planner (λ planner. pure (
          in_parts (
            m.format_plan_for_confirmation r.run_id planner (or_else "" r.plan_text)
              r.estimate_seconds)))

  -- `_continue_planning`
  unfoldable pub continue_planning : String → Action (List Text)
  continue_planning id =
      try_else is_prompt_submission (complete_planning s id) (λ e. pure []) planned_reply

  drafting-unchanged :
      (w : World) (latest : RunStatusSnapshot)
      → same latest.run.status awaiting_confirmation ≡ true
      → latest.run.plan_text ≡ none
      → (answer_latest (ok (some latest)) w).1 ≡ w
  unfolding message_to_waiting
  drafting-unchanged w latest waits no_plan = rw waits (rw no_plan refl)

  -- While the plan of the latest run is drafted, a message changes nothing.
  pub handle_prompt-drafting :
      (w : World) (latest : RunStatusSnapshot)
      → status_of none w ≡ ok (some latest)
      → same latest.run.status awaiting_confirmation ≡ true
      → latest.run.plan_text ≡ none
      → (handle_prompt w).1 ≡ w
  unfolding handle_prompt
  handle_prompt-drafting w latest found waits no_plan =
      elim (Bool-cases (is_entry (get_entry c.default_agent c.agents))) [
        | inr e ↦ rw e refl
        | inl e ↦ elim (Bool-cases (str_eq (m.strip m.message_text) "")) [
          | inl f ↦ rw (e, f) refl
          | inr f ↦ rw (e, f) (rw found (drafting-unchanged w latest waits no_plan))
        ]
      ]
