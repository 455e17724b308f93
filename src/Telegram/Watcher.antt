-- ===== src/Telegram/Watcher.antt =====
-- src/mergemate/interfaces/telegram/progress_notifier.py: the loop that polls a run and reports its
-- progress to a chat. Reading the run (behind the sleep) and sending a text are parameters; both may
-- change the state in any way, as other tasks run meanwhile.
pub mod Polls
use merge_mate.Base.{
  ℕ, zero, suc, ◌+◌, String, Bool, true, false, ◌&&◌, not, Option, none, some, List, [], ◌∷◌, ◌++◌,
  str_eq, if◌then◌else◌, leb, ◌==◌, elem,
}
use merge_mate.Domain.Status.{RunStatus, same, is_terminal, completed, cancelled}
use merge_mate.World.Effects.{
  Exec, Outcome, ok, raised, Error, pure, gets, continue, try_else, ◌>>=◌, ◌>>◌, is_exception,
}

-- `_tool_event_signature`: tool, action, status and detail.
abbrev pub Signature : Type 0
Signature = String × String × String × String

-- What the watcher compares.
pub record Snapshot : Type 0 where
  pub status : RunStatus
  pub stage : String
  pub review_iterations : ℕ
  pub signature : Option Signature

-- The run as `get_run_status.execute` gives it.
pub record Reading : Type 0 where
  pub run_id : String
  pub snapshot : Snapshot
  pub result_text : Option String
  pub error_text : Option String

abbrev pub signature_eq : Option Signature → Option Signature → Bool
signature_eq none none = true
signature_eq (some (a, b, c, d)) (some (a', b', c', d')) =
    str_eq a a' && (str_eq b b' && (str_eq c c' && str_eq d d'))
signature_eq _ _ = false

-- `snapshot == last_snapshot`
abbrev pub same_snapshot : Option Snapshot → Snapshot → Bool
same_snapshot none s = false
same_snapshot (some t) s =
    same t.status s.status
    && (str_eq t.stage s.stage
        && (t.review_iterations == s.review_iterations && signature_eq t.signature s.signature))

pub data Verdict : Type 0 where
  stop : Verdict
  poll_again : Option Snapshot → Verdict

-- `terminal_deliveries`, and what the parameters keep.
pub record Chatroom (W : Type 0) : Type 0 where
  pub deliveries : List String
  pub outside : W

-- What the watcher is given. The texts are those of the presenter.
pub record Watch (W : Type 0) : Type 0 where
  pub max_poll_iterations : Option ℕ
  pub read : Exec (Chatroom W) (Option Reading)
  pub send_text_chunks : String → Exec (Chatroom W) (Unit {0})
  pub format_completion : String → String → String
  pub format_cancelled : String → String
  pub format_failure : String → Option String → String
  pub format_progress_update : Reading → String

abbrev pub text_or_empty : Option String → String
text_or_empty none = ""
text_or_empty (some t) = t

module _ {W : Type 0} (watch : Watch W) where
  -- `_format_terminal_update`
  unfoldable pub format_terminal_update : Reading → String
  format_terminal_update r =
      if same r.snapshot.status completed
      then watch.format_completion r.run_id (text_or_empty r.result_text)
      else if same r.snapshot.status cancelled
      then watch.format_cancelled r.run_id
      else watch.format_failure r.run_id r.error_text

  abbrev pub delivered : Reading → Exec (Chatroom W) Bool
  delivered r w = (ok true, record w { deliveries = w.deliveries ++ r.run_id ∷ [] })

  unfoldable pub notify_terminal_update : Reading → Exec (Chatroom W) Bool
  notify_terminal_update r =
      try_else is_exception (watch.send_text_chunks (format_terminal_update r)) (λ e. pure false)
        (λ _. delivered r)

  abbrev pub at_limit : Option ℕ → ℕ → Bool
  at_limit none count = false
  at_limit (some most) count = leb most count

  -- The check of the limit at the end of a poll, and what the next one compares with.
  abbrev pub limited : ℕ → Option Snapshot → Verdict
  limited count last = if at_limit watch.max_poll_iterations count then stop else poll_again last

  abbrev pub after_delivery : ℕ → Option Snapshot → Bool → Verdict
  after_delivery count last sent = if sent then stop else limited count last

  -- The part of a poll that sends.
  unfoldable pub report : ℕ → Option Snapshot → Reading → Exec (Chatroom W) Verdict
  report count last r =
      if is_terminal r.snapshot.status
      then (notify_terminal_update r >>= λ sent. pure (after_delivery count last sent))
      else try_else is_exception (watch.send_text_chunks (watch.format_progress_update r))
          (λ e. pure (limited count last)) (λ _. pure (limited count (some r.snapshot)))

  unfoldable pub seen : ℕ → Option Snapshot → Option Reading → Exec (Chatroom W) Verdict
  seen count last none w = (ok stop, w)
  seen count last (some r) w =
      if is_terminal r.snapshot.status && elem r.run_id w.deliveries
      then (ok stop, w)
      else if same_snapshot last r.snapshot
      then (ok (limited count last), w)
      else report count last r w

  -- One poll, `count` of them with this one.
  unfoldable pub poll : ℕ → Option Snapshot → Exec (Chatroom W) Verdict
  poll count last = watch.read >>= seen count last

  abbrev pub go_on : (Option Snapshot → Exec (Chatroom W) Bool) → Verdict → Exec (Chatroom W) Bool
  go_on next stop = pure true
  go_on next (poll_again last) = next last

  -- `watch_run_progress`, for so many polls at most, behind `count` of them: true where it returned,
  -- false where it still polls.
  unfoldable pub watch_run_progress : ℕ → ℕ → Option Snapshot → Exec (Chatroom W) Bool
  watch_run_progress zero count last = pure false
  watch_run_progress (suc fuel) count last =
      poll (count + 1) last >>= go_on (watch_run_progress fuel (count + 1))
