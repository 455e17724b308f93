-- ===== src/Samples/Consoles.antt =====
-- The theorems on the commands of a terminal and on the watchers of a chat.
use merge_mate.Base.{
  ℕ, ◌+◌, ◌≤◌, true, none, some, [], ◌∷◌, ◌≡◌, ◌≢◌, refl, count_where, find, select, arith,
}
use merge_mate.Persistence.Conversations.{Message}
use merge_mate.Persistence.ToolEvents.{list_for_run}
use merge_mate.Persistence.Recent.{recent, recent_first}
use merge_mate.Application.RunStatus.{RunStatusSnapshot, execute, build_snapshot}
use merge_mate.World.{ok}
use merge_mate.Telegram.Watchers
use merge_mate.Telegram.Watchers.{Watchers, no_watchers, start_progress_watcher}
use merge_mate.Telegram.Watchers.Tracked.{watches, one_watcher}
use merge_mate.Cli.Shell.{Shell, running}
use merge_mate.Cli.Searches.{
  Printer, hits, print_combined_search_results, IsPrinted, print_combined_search_results-IsPrinted,
}
use merge_mate.Cli.Polls.{IsPolled, deadline_of, poll_run, poll_run-IsPolled, status_of}
use merge_mate.Cli.Polls.Waits.{poll_run-returns, poll_run-idle}
use merge_mate.Cli.Prints.{Terminal}
use merge_mate.Cli.Runs.{Options, resume_cli}
use merge_mate.Cli.Runs.History.{IsFailing, resume_cli-IsFailing}
use merge_mate.Samples.{chat, waiting, ready, world, setup}
use merge_mate.Samples.Settings.{settings}

abbrev shell : Shell
shell = record { world = world; require_confirmation = true; monotonic = 100; lines = [] }

-- Time passes, and nobody works on the runs.
abbrev sleep : ℕ → Shell → Shell
sleep n s = record s { monotonic = s.monotonic + n }

abbrev ready_snapshot : RunStatusSnapshot
ready_snapshot = record { run = ready; tool_events = [] }

ready_found : status_of "b" shell ≡ ok (some ready_snapshot)
unfolding execute build_snapshot find list_for_run recent recent_first select
ready_found = refl

poll_run-IsPolled_example :
    IsPolled sleep 2 "b" (deadline_of (some 5) 100) (poll_run sleep 2 "b" 6 (some 5) shell)
poll_run-IsPolled_example = poll_run-IsPolled sleep 2 "b" 6 (some 5) shell

poll_run-returns_example : (poll_run sleep 2 "b" 6 (some 5) shell).0 ≢ running
poll_run-returns_example = poll_run-returns sleep 2 "b" 5 shell (λ t. omega arith) (omega arith)

poll_run-idle_example : (poll_run sleep 2 "b" 50 none shell).0 ≡ running
poll_run-idle_example =
    poll_run-idle sleep 2 "b" ready_snapshot 50 shell (λ t. refl) refl ready_found

abbrev printer : Printer
printer = record {
  slice = λ n t. t;
  one_line = λ t. t;
  rstrip = λ t. t;
  strip = λ t. t;
  lower = λ t. t;
  chat_text = λ c. "7";
  number = λ n. "60";
  format_datetime = λ n. "";
  text_of = λ t. "";
}

abbrev said_once : Message
said_once = record { chat_id = chat; role = "user"; content = "add a test"; created_at = 5 }

print_combined_search_results-IsPrinted_example :
    IsPrinted printer 1
      (hits (waiting ∷ ready ∷ []) (said_once ∷ []))
      shell
      (print_combined_search_results printer 1 (waiting ∷ ready ∷ []) (said_once ∷ []) shell).1
print_combined_search_results-IsPrinted_example =
    print_combined_search_results-IsPrinted printer 1 (waiting ∷ ready ∷ []) (said_once ∷ []) shell
      (λ h. cc h)

abbrev terminal : Terminal
terminal = record {
  setup = setup;
  settings = settings;
  printer = printer;
  digest = λ t. 5;
  bits = 3;
  sleep = sleep;
  load_recent_messages = none;
}

abbrev options : Options
options = record {
  session = some "work";
  agent = none;
  workflow = none;
  timeout = some 5;
  poll_interval = 2;
  fuel = 6;
}

resume_cli-IsFailing_example : IsFailing (resume_cli terminal options) shell
resume_cli-IsFailing_example = resume_cli-IsFailing terminal options shell refl

abbrev watched : Watchers
watched = start_progress_watcher "b" (start_progress_watcher "b" no_watchers)

one_watcher_example : count_where (watches "b") watched.tasks ≤ 1
one_watcher_example = one_watcher watched "b" (
    Watchers.behind (Watchers.behind Watchers.at_start (Watchers.starts no_watchers "b"))
      (Watchers.starts (start_progress_watcher "b" no_watchers) "b"))
