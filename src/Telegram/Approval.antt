-- ===== src/Telegram/Approval.antt =====
-- src/mergemate/interfaces/telegram/handlers.py: /approve and /cancel. A command gives its replies, and
-- the run for which it starts a watcher.
use merge_mate.Base.{
  String, not, Option, none, some, List, [], ◌∷◌, ◌≡◌, refl, ◌⊎◌, inl, inr, if◌then◌else◌, str_eq,
  Bool-cases,
}
use merge_mate.Domain.Runs.{AgentRun, ChatId}
use merge_mate.Persistence.RunRepository.{get}
use merge_mate.World.{World, Action, Outcome, ok, raised, pure, continue, gets, ◌>>=◌}
use merge_mate.Application.RunStatus.{RunStatusSnapshot, execute}
use merge_mate.Application.Submission.{Setup, ApproveRunResult}
use merge_mate.Application.Submission.Confirmation.{approve, cancel, CancelRunResult}
use merge_mate.Application.Submission.Guards.{IsReady, IsRefusal, approve_guard}
use merge_mate.Telegram.Messages.{Text, split_telegram_message}

-- The chat, and the texts of the presenter, by their run and status.
pub record Talk : Type 0 where
  pub chat_id : ChatId
  pub text_of : String → Text
  pub format_approval_not_needed : String → String → Text
  pub format_approval_started : String → Text
  pub format_cancellation_not_allowed : String → String → Text
  pub format_cancelled : String → Text

pub record Answer : Type 0 where
  pub replies : List Text
  pub watched : Option String

abbrev pub says : Text → Answer
says t = record { replies = t ∷ []; watched = none }

-- The parts of a text, which `split_telegram_message` always gives.
abbrev parts : Option (List Text) → List Text
parts none = []
parts (some out) = out

-- The latest run of the chat that has not ended.
abbrev latest_id : Outcome (Option RunStatusSnapshot) → Option String
latest_id (ok (some s)) = some s.run.run_id
latest_id _ = none

module _ (talk : Talk) where
  -- The run that the command is about: its argument, or the latest one.
  unfoldable pub target : List String → World → Option String
  target (a ∷ rest) w = some a
  target [] w = latest_id (execute (some w.events) 5 none (some talk.chat_id) w.runs)

  abbrev pub with_error : ApproveRunResult → Option String → Answer
  with_error r none = says (talk.format_approval_not_needed r.run_id r.status)
  with_error r (some e) =
      if str_eq e ""
      then says (talk.format_approval_not_needed r.run_id r.status)
      else record { replies = parts (split_telegram_message 4000 (talk.text_of e)); watched = none }

  abbrev pub approval_answer : Option ApproveRunResult → Answer
  approval_answer none = says (talk.text_of "Run approval failed.")
  approval_answer (some r) =
      if not r.dispatched
      then with_error r r.error_text
      else record { replies = talk.format_approval_started r.run_id ∷ []; watched = some r.run_id }

  abbrev pub approve_target : Setup → Option String → Action Answer
  approve_target s none = pure (says (talk.text_of "No run is available to approve."))
  approve_target s (some id) = do r ← approve s id (some talk.chat_id); pure (approval_answer r)

  unfoldable pub approve_command : Setup → List String → Action Answer
  unfolding target
  approve_command s args = do id ← gets (target args); approve_target s id

  abbrev pub cancellation_answer : Option CancelRunResult → Answer
  cancellation_answer none = says (talk.text_of "No run could be cancelled.")
  cancellation_answer (some r) =
      if not r.cancelled
      then says (talk.format_cancellation_not_allowed r.run_id r.status)
      else says (talk.format_cancelled r.run_id)

  abbrev first_of : List String → Option String
  first_of [] = none
  first_of (a ∷ rest) = some a

  unfoldable pub cancel_command : List String → Action Answer
  cancel_command args = do
    r ← cancel (first_of args) (some talk.chat_id)
    pure (cancellation_answer r)

  abbrev pub watched_of : Outcome Answer → Option String
  watched_of (ok a) = a.watched
  watched_of (raised e) = none

  -- Nothing is written, and no watcher is started.
  abbrev pub IsQuiet : World → Outcome Answer × World → Type 0
  IsQuiet w out = (out.1 ≡ w) × (watched_of out.0 ≡ none)

  with_error-watched : (r : ApproveRunResult) (o : Option String) → (with_error r o).watched ≡ none
  with_error-watched r none = refl
  with_error-watched r (some e) = elim (Bool-cases (str_eq e "")) [
    | inl h ↦ rw h refl
    | inr h ↦ rw h refl
  ]

  refused-IsQuiet :
      (w : World) (out : Outcome (Option ApproveRunResult) × World)
      → IsRefusal w out
      → IsQuiet w (continue out.0 (λ r. pure (approval_answer r)) out.1)
  refused-IsQuiet w (ok none, w') h = (h.0, refl)
  refused-IsQuiet w (ok (some r), w') h = (h.0, rw h.1 (with_error-watched r r.error_text))
  refused-IsQuiet w (raised e, w') h = (h.0, refl)

  approve_target-guard :
      (s : Setup) (id : String) (w : World)
      → ((r : AgentRun) × (get id w.runs ≡ some r) × IsReady (some talk.chat_id) r)
        ⊎ IsQuiet w (approve_target s (some id) w)
  approve_target-guard s id w = elim (approve_guard s id (some talk.chat_id) w) [
    | inl ready ↦ inl ready
    | inr refusal ↦ inr (refused-IsQuiet w (approve s id (some talk.chat_id) w) refusal)
  ]

  -- For the run that /approve is about, its argument or the chat's latest run that has not ended:
  -- either it exists, is of the chat, waits for its confirmation, is not approved and has a plan,
  -- or the command changes nothing and starts no watcher.
  pub approve_command-guard :
      (s : Setup) (args : List String) (id : String) (w : World)
      → target args w ≡ some id
      → ((r : AgentRun) × (get id w.runs ≡ some r) × IsReady (some talk.chat_id) r)
        ⊎ IsQuiet w (approve_command s args w)
  unfolding approve_command
  approve_command-guard s args id w h = rw h (approve_target-guard s id w)
