-- ===== src/Samples/Chats.antt =====
-- The theorems on the messages, the watcher and the commands of the chat.
use merge_mate.Base.{
  ℕ, suc, ◌+◌, false, none, some, List, [], ◌∷◌, ◌≡◌, ◌≢◌, elem, ◌⊎◌, refl, arith,
}
use merge_mate.Domain.Status.{RunStatus}
use merge_mate.World.Effects.{ok, pure}
use merge_mate.Telegram.Messages.{Text, split_telegram_message}
use merge_mate.Telegram.Messages.Chunks.{IsDivided, split_telegram_message_lem}
use merge_mate.Telegram.Watcher.{
  stop, report, notify_terminal_update, format_terminal_update, Reading, Chatroom, Watch,
  watch_run_progress, seen,
}
use merge_mate.Telegram.Watcher.Polls.{watch_run_progress_ends}
use merge_mate.Telegram.Commands.{Chat, status_command, IsReply, status_command-IsReply}
use merge_mate.Domain.Runs.{AgentRun}
use merge_mate.Persistence.RunRepository.{get}
use merge_mate.Application.Submission.Guards.{IsReady}
use merge_mate.Telegram.Approval.{Talk, approve_command, target, IsQuiet, approve_command-guard}
use merge_mate.Samples.{chat, runs, world, setup}

-- Four code points and a line break, in parts of three at most.
split_telegram_message_lem_example :
    (out : List Text) × (split_telegram_message 3 (97 ∷ 98 ∷ 10 ∷ 99 ∷ 100 ∷ []) ≡ some out)
    × IsDivided 3 (97 ∷ 98 ∷ 10 ∷ 99 ∷ 100 ∷ []) out
split_telegram_message_lem_example =
    split_telegram_message_lem 3 (97 ∷ 98 ∷ 10 ∷ 99 ∷ 100 ∷ []) (omega arith)

abbrev reading : RunStatus → Reading
reading status = record {
  run_id = "a";
  snapshot = record { status = status; stage = "testing"; review_iterations = 1; signature = none };
  result_text = some "done";
  error_text = none;
}

-- A watcher of a run that stays running; the state counts the messages.
abbrev watcher : Watch ℕ
watcher = record {
  max_poll_iterations = some 3;
  read = pure (some (reading RunStatus.running));
  send_text_chunks = λ t w. (ok tt, record w { outside = w.outside + 1 });
  format_completion = λ id t. t;
  format_cancelled = λ id. "cancelled";
  format_failure = λ id e. "failed";
  format_progress_update = λ r. "progress";
}

abbrev room : Chatroom ℕ
room = record { deliveries = []; outside = 0 }

watch_run_progress_ends_example : (watch_run_progress watcher (suc 2) 0 none room).0 ≢ ok false
watch_run_progress_ends_example = watch_run_progress_ends watcher 3 2 0 none room refl (omega arith)

abbrev patient : Watch ℕ
patient = record watcher { max_poll_iterations = none }

finished :
    seen patient 1 none (some (reading RunStatus.completed)) room
    ≡ (ok stop, record { deliveries = "a" ∷ []; outside = 1 })
unfolding seen report notify_terminal_update format_terminal_update elem
finished = refl

abbrev window : Chat
window = record {
  chat_id = chat;
  format_detailed_status = λ s. 97 ∷ [];
  format_tool_history = λ s. 98 ∷ [];
  no_runs = 99 ∷ [];
  text_of = λ t. [];
  digits = record { is_digit = λ t. false; to_int = λ t. 0 };
  runs = runs;
  events = none;
}

status_command-IsReply_example :
    IsReply window 5 window.format_detailed_status (status_command window ("a" ∷ []))
status_command-IsReply_example = status_command-IsReply window ("a" ∷ [])

abbrev talk : Talk
talk = record {
  chat_id = chat;
  text_of = λ t. [];
  format_approval_not_needed = λ id s. [];
  format_approval_started = λ id. 97 ∷ [];
  format_cancellation_not_allowed = λ id s. [];
  format_cancelled = λ id. [];
}

approve_command-guard_example :
    ((r : AgentRun) × (get "b" world.runs ≡ some r) × IsReady (some chat) r)
    ⊎ IsQuiet talk world (approve_command talk setup ("b" ∷ []) world)
unfolding target
approve_command-guard_example = approve_command-guard talk setup ("b" ∷ []) "b" world refl
