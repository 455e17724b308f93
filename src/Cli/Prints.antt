-- ===== src/Cli/Prints.antt =====
-- src/mergemate/cli.py: what the commands print of a run and of a conversation.
use merge_mate.Base.{
  ℕ, String, Bool, true, false, not, ◌&&◌, Option, none, some, List, [], ◌∷◌, if◌then◌else◌, str_eq,
  text_append,
}
use merge_mate.Base.Texts.{join}
use merge_mate.Config.{AppConfig}
use merge_mate.Domain.Status.{value}
use merge_mate.Domain.Runs.{ChatId, AgentRun}
use merge_mate.Persistence.RunRepository.{get_latest_non_terminal_for_chat}
use merge_mate.World.{World, Error, other}
use merge_mate.Application.Submission.{Setup}
use merge_mate.Cli.Shell.{Shell, returned, failed_with, Command, pure, echo, echo_to, ◌>>◌}
use merge_mate.Cli.Ages.{format_age}
use merge_mate.Cli.Searches.{Printer}

-- What the commands are given: the use case's setup, the settings, the texts, the digest of a session's
-- name, random bits, and `sleep`. `load_recent_messages` is that method of the conversation repository,
-- none where it has no such method.
pub record Terminal : Type 0 where
  pub setup : Setup
  pub settings : AppConfig
  pub printer : Printer
  pub digest : String → ℕ
  pub bits : ℕ
  pub sleep : ℕ → Shell → Shell
  pub load_recent_messages : Option (ChatId → ℕ → World → List (String × String))

abbrev pub raise : {A : Type 0} → Error → Command A
raise e s = (failed_with e, s)

abbrev pub no_attribute : Error
no_attribute = record {
  kind = other;
  text = "'SQLiteConversationRepository' object has no attribute 'load_recent_messages'";
}

-- `text or other`
abbrev pub has_text : Option String → Bool
has_text none = false
has_text (some t) = not (str_eq t "")

abbrev pub text_or : Option String → String → String
text_or none fallback = fallback
text_or (some t) fallback = if str_eq t "" then fallback else t

module _ (t : Terminal) where
  open t use {printer}

  -- `_print_run_result`
  abbrev pub echo_if : Bool → Bool → String → Command (Unit {0})
  echo_if test err text s = if test then echo_to err text s else (returned tt, s)

  unfoldable pub print_run_result : AgentRun → Bool → Command (Unit {0})
  print_run_result run quiet =
      let result = text_or run.result_text "" in
      let error = text_or run.error_text "" in
      let failed = not (has_text run.result_text) && has_text run.error_text in
      let whole =
        echo (text_append "Status: " (value run.status))
        >> echo_if (has_text run.plan_text) false (
            text_append "Plan: "
              (text_append (printer.one_line (printer.slice 200 (text_or run.plan_text ""))) "..."))
        >> echo_if (has_text run.result_text) false
            (text_append "Result:\n" (printer.rstrip result))
        >> echo_if failed true (text_append "Error: " error) in
      let bare =
        echo_if (has_text run.result_text) false (printer.rstrip result)
        >> echo_if failed true (printer.rstrip error) in
      if quiet then bare else whole

  abbrev pub preview : ℕ → String → String
  preview n text = printer.one_line (printer.slice n text)

  unfoldable pub age_text : ℕ → ℕ → String
  age_text at now = elim (format_age (some at) now) [ none ↦ "" | some age ↦ printer.text_of age ]

  -- `_print_session_resume_summary`
  unfoldable pub summary : ℕ → Option AgentRun → Command (Unit {0})
  unfolding age_text
  summary now none = pure tt
  summary now (some run) =
      echo "--- Incomplete run detected ---"
      >> echo (text_append "  Run: " (printer.slice 8 run.run_id))
      >> echo (text_append "  Status: " (value run.status))
      >> echo (text_append "  Stage: " run.current_stage)
      >> echo (text_append "  Created: " (printer.format_datetime run.created_at))
      >> echo (
          join "" (
            "  Updated: "
            ∷ printer.format_datetime run.updated_at
            ∷ " ("
            ∷ age_text run.updated_at now
            ∷ " ago)"
            ∷ []))
      >> echo (text_append "  Prompt: " (preview 120 run.prompt))
      >> echo "-------------------------------"

  unfoldable pub print_session_resume_summary : ChatId → Command (Unit {0})
  unfolding summary
  print_session_resume_summary chat s =
      summary s.world.clock (get_latest_non_terminal_for_chat chat s.world.runs) s

  -- `_print_conversation_history`
  unfoldable pub message_lines : List (String × String) → Command (Unit {0})
  message_lines [] = echo "----------------------------"
  message_lines ((role, content) ∷ rest) =
      echo (join "" ("  [" ∷ role ∷ "] " ∷ preview 120 content ∷ [])) >> message_lines rest

  unfoldable pub history : List (String × String) → Command (Unit {0})
  unfolding message_lines
  history [] = pure tt
  history (m ∷ messages) = echo "--- Previous conversation ---" >> message_lines (m ∷ messages)

  unfoldable pub print_conversation_history : ChatId → Command (Unit {0})
  unfolding history
  print_conversation_history chat s = elim t.load_recent_messages [
    | none ↦ (failed_with no_attribute, s)
    | some load ↦ history (load chat 10 s.world) s
  ]
