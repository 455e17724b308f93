-- ===== src/Cli/Runs/History.antt =====
-- The conversation repository has no method `load_recent_messages`, so what calls it ends there.
use merge_mate.Base.{
  ℕ, String, Bool, false, Option, none, some, List, [], ◌∷◌, ◌≡◌, refl, ◌⊎◌, inl, inr, arith,
}
use merge_mate.Domain.Runs.{ChatId, AgentRun}
use merge_mate.Persistence.RunRepository.{list_for_chat, get_latest_non_terminal_for_chat}
use merge_mate.World.{Error}
use merge_mate.Cli.Shell.{Shell, returned, failed_with, Command, echo_to, ◌>>=◌}
use merge_mate.Cli.Sessions.{resolve_workflow}
use merge_mate.Cli.Prints.{
  Terminal, no_attribute, print_run_result, summary, print_session_resume_summary,
  print_conversation_history,
}
use merge_mate.Cli.Runs.{
  Options, chat_of, agent_of, workflow_of, or_no_workflow, chat_cli, latest_summary, resuming,
  resume_run, resume_cli,
}

-- A command that only prints.
abbrev Prints : Command (Unit {0}) → Shell → Type 0
Prints m s = ((m s).0 ≡ returned tt) × ((m s).1.world ≡ s.world)

-- A command that an exception ends, and that changes nothing.
abbrev pub IsFailing : {A : Type 0} → Command A → Shell → Type 0
IsFailing m s = (e : Error) × ((m s).0 ≡ failed_with e) × ((m s).1.world ≡ s.world)

module _ (t : Terminal) where
  print_run_result-Prints :
      (run : AgentRun) (quiet : Bool) (s : Shell) → Prints (print_run_result t run quiet) s
  unfolding print_run_result echo_to
  print_run_result-Prints run quiet s = (ground arith, ground arith)

  summary-Prints : (now : ℕ) (run : Option AgentRun) (s : Shell) → Prints (summary t now run) s
  unfolding summary echo_to
  summary-Prints now none s = (refl, refl)
  summary-Prints now (some run) s = (refl, refl)

  resume_summary-Prints :
      (chat : ChatId) (s : Shell) → Prints (print_session_resume_summary t chat) s
  unfolding print_session_resume_summary
  resume_summary-Prints chat s = summary-Prints _ _ s

  latest_summary-Prints :
      (o : Options) (runs : List AgentRun) (s : Shell) → Prints (latest_summary t o runs) s
  unfolding latest_summary echo_to
  latest_summary-Prints o [] s = (refl, refl)
  latest_summary-Prints o (run ∷ runs) s = print_run_result-Prints run false _

  module _ (absent : t.load_recent_messages ≡ none) where
    history_fails :
        (chat : ChatId) (s : Shell)
        → print_conversation_history t chat s ≡ (failed_with no_attribute, s)
    unfolding print_conversation_history
    history_fails chat s = rw absent refl

    with_workflow-IsFailing :
        (o : Options) (f : String → Command (Unit {0})) (s : Shell)
        → ((w : String) → IsFailing (f w) s)
        → (r : String ⊎ String) → IsFailing (or_no_workflow t o r >>= f) s
    with_workflow-IsFailing o f s next (inl w) = next w
    with_workflow-IsFailing o f s next (inr text) = (_, refl, refl)

  pub chat_cli-IsFailing :
      (o : Options) (typed : List String) (s : Shell)
      → t.load_recent_messages ≡ none
      → IsFailing (chat_cli t o typed) s
  unfolding chat_cli workflow_of
  chat_cli-IsFailing o typed s absent =
      let printed = resume_summary-Prints (chat_of t o) s in
      with_workflow-IsFailing absent o _ s
        (λ w. rw (printed.0, history_fails absent) (no_attribute, refl, printed.1))
        (resolve_workflow t.settings (agent_of t o) o.workflow)

  resume_run-IsFailing :
      (o : Options) (run : Option AgentRun) (s : Shell)
      → t.load_recent_messages ≡ none
      → IsFailing (resume_run t o run) s
  unfolding resume_run echo_to
  resume_run-IsFailing o none s absent =
      let printed = latest_summary-Prints o (list_for_chat (chat_of t o) (some 1) s.world.runs) s in
      rw (printed.0, history_fails absent) (no_attribute, refl, printed.1)
  resume_run-IsFailing o (some run) s absent =
      let printed = resume_summary-Prints (chat_of t o) (echo_to false (resuming t o run) s).1 in
      rw (printed.0, history_fails absent) (no_attribute, refl, printed.1)

  -- If the conversation repository has no method load_recent_messages, every resume of a session
  -- ends in an exception and changes neither runs nor jobs: no waiting run is approved.
  pub resume_cli-IsFailing :
      (o : Options) (s : Shell) → t.load_recent_messages ≡ none → IsFailing (resume_cli t o) s
  unfolding resume_cli
  resume_cli-IsFailing o s absent =
      resume_run-IsFailing o (get_latest_non_terminal_for_chat (chat_of t o) s.world.runs) s absent
