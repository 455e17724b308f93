-- ===== src/Cli/Runs.antt =====
-- src/mergemate/cli.py: the commands `run`, `chat` and `resume`, over the use cases and the repositories.
-- The lines that a user types are a list; behind its end, `input` raises EOFError.
pub mod History
use merge_mate.Base.{
  ℕ, String, Bool, true, false, not, ◌&&◌, ◌||◌, Option, none, some, List, [], ◌∷◌, ◌++◌, ◌≡◌, ◌⊎◌,
  inl, inr, if◌then◌else◌, str_eq, text_append,
}
use merge_mate.Base.Texts.{join}
use merge_mate.Config.{AppConfig}
use merge_mate.Domain.Status.{value, same, awaiting_confirmation}
use merge_mate.Domain.Runs.{ChatId, positive, AgentRun, Decision}
use merge_mate.Persistence.RunRepository.{list_for_chat, get_latest_non_terminal_for_chat, approve}
use merge_mate.World.{World, Action, Error, value_error, other, on_runs}
use merge_mate.Application.Submission.{Setup, SubmitPromptResult, execute}
use merge_mate.Application.RunStatus.{RunStatusSnapshot}
use merge_mate.Cli.Shell.{
  Shell, Line, Result, returned, exits, failed_with, running, Command, pure, exit, gets, call,
  continue, echo, echo_to, ◌>>=◌, ◌>>◌,
}
use merge_mate.Cli.Sessions.{resolve_session_chat_id, resolve_workflow, with_auto_approve}
use merge_mate.Cli.Prints.{
  Terminal, raise, has_text, text_or, echo_if, preview, print_run_result,
  print_session_resume_summary, print_conversation_history,
}
use merge_mate.Cli.Polls.{poll_run}

-- The options that the commands share; times are in one unit. `fuel` bounds the polls of a run.
pub record Options : Type 0 where
  pub session : Option String
  pub agent : Option String
  pub workflow : Option String
  pub timeout : Option ℕ
  pub poll_interval : ℕ
  pub fuel : ℕ

module _ (t : Terminal) where
  open t use {setup, settings, printer, sleep}

  -- `submit_prompt.execute`, with the settings as they are.
  unfoldable pub submit : ChatId → String → String → String → Command SubmitPromptResult
  submit chat agent workflow prompt s =
      call
        (execute (record setup { require_confirmation = s.require_confirmation }) chat (positive 0)
          agent workflow prompt)
        s

  module _ (o : Options) where
    unfoldable pub chat_of : ChatId
    chat_of = resolve_session_chat_id t.digest t.bits o.session

    unfoldable pub agent_of : String
    agent_of = text_or o.agent settings.default_agent

    abbrev pub or_no_workflow : String ⊎ String → Command String
    or_no_workflow (inl workflow) = pure workflow
    or_no_workflow (inr text) = raise (record { kind = value_error; text = text })

    unfoldable pub workflow_of : Command String
    workflow_of = or_no_workflow (resolve_workflow settings agent_of o.workflow)

    -- `submit_prompt.execute` while the confirmation is off, and the run of it when it has ended.
    unfoldable pub wait_for : String → Command RunStatusSnapshot
    wait_for id = poll_run sleep o.poll_interval id o.fuel o.timeout

    unfoldable pub submitted : Bool → String → SubmitPromptResult → Command (Unit {0})
    submitted quiet workflow r =
        let banner =
          echo (text_append "Run ID: " r.run_id)
          >> echo (text_append "Workflow: " workflow)
          >> echo (join "" ("Estimated duration: ~" ∷ printer.number r.estimate_seconds ∷ "s" ∷ []))
          >> echo_if t (has_text r.plan_text) false
              (text_append "\nPlan:\n" (printer.slice 300 (text_or r.plan_text ""))) in
        if quiet then pure tt else banner

    -- `run_cli`
    unfoldable pub run_cli : String → Bool → Command (Unit {0})
    unfolding submitted wait_for
    run_cli prompt quiet = do
      workflow ← workflow_of
      print_session_resume_summary t chat_of
      result ← with_auto_approve (submit chat_of agent_of workflow prompt)
      submitted quiet workflow result
      snapshot ← wait_for result.run_id
      print_run_result t snapshot.run quiet

    -- One line that a user typed, which is neither empty nor the end.
    unfoldable pub turn : String → String → Command (Unit {0})
    unfolding wait_for
    turn workflow prompt = do
      result ← submit chat_of agent_of workflow prompt
      echo (
          join "" (
            "  [Run "
            ∷ printer.slice 8 result.run_id
            ∷ "] ~"
            ∷ printer.number result.estimate_seconds
            ∷ "s ..."
            ∷ []))
      echo_if t (has_text result.plan_text) false
          (join "" ("  Plan: " ∷ preview t 200 (text_or result.plan_text "") ∷ "..." ∷ []))
      snapshot ← wait_for result.run_id
      print_run_result t snapshot.run false

    unfoldable pub chat_loop : String → List String → Command (Unit {0})
    unfolding turn
    chat_loop workflow [] = echo ""
    chat_loop workflow (typed ∷ rest) =
        let line = printer.strip typed in
        let left = str_eq (printer.lower line) "exit" || str_eq (printer.lower line) "quit" in
        let later = chat_loop workflow rest in
        let taken = turn workflow line >> later in
        if left then pure tt else if str_eq line "" then later else taken

    -- `chat_cli`
    unfoldable pub chat_cli : List String → Command (Unit {0})
    unfolding chat_loop
    chat_cli typed = do
      workflow ← workflow_of
      print_session_resume_summary t chat_of
      print_conversation_history t chat_of
      echo (join "" ("MergeMate chat session [" ∷ text_or o.session "(anonymous)" ∷ "]" ∷ []))
      echo "Type \"exit\" or \"quit\" to leave."
      with_auto_approve (chat_loop workflow typed)

    -- `resume_cli`
    unfoldable pub latest_summary : List AgentRun → Command (Unit {0})
    latest_summary [] = pure tt
    latest_summary (run ∷ runs) = echo "--- Latest run summary ---" >> print_run_result t run false

    unfoldable pub approve_waiting : AgentRun → Command (Unit {0})
    approve_waiting run s =
        let approved = call (on_runs (λ now. approve now run.run_id)) >>= λ (d : Decision).
        echo "Approved pending run; waiting for execution to continue..." in
        if same run.status awaiting_confirmation then approved s else (returned tt, s)

    unfoldable pub resuming : AgentRun → String
    resuming run = join "" (
        "Resuming session \""
        ∷ text_or o.session ""
        ∷ "\" with run "
        ∷ printer.slice 8 run.run_id
        ∷ "..."
        ∷ [])

    unfoldable pub resume_run : Option AgentRun → Command (Unit {0})
    unfolding latest_summary approve_waiting wait_for
    resume_run none = do
      runs ← gets (λ (s : Shell). list_for_chat chat_of (some 1) s.world.runs)
      latest_summary runs
      print_conversation_history t chat_of
      echo_to true
          (join "" ("No incomplete run found for session \"" ∷ text_or o.session "" ∷ "\"." ∷ []))
      exit 1
    resume_run (some run) = do
      echo (resuming run)
      print_session_resume_summary t chat_of
      print_conversation_history t chat_of
      approve_waiting run
      snapshot ← wait_for run.run_id
      print_run_result t snapshot.run false

    unfoldable pub resume_cli : Command (Unit {0})
    unfolding resume_run
    resume_cli s = resume_run (get_latest_non_terminal_for_chat chat_of s.world.runs) s
