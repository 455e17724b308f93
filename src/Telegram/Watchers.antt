-- ===== src/Telegram/Watchers.antt =====
-- src/mergemate/interfaces/telegram/progress_notifier.py: which run has a watcher. The tasks are those
-- of the event loop, the newest first; a task is done when its loop has ended, and its callback runs
-- after that.
pub mod Tasks
pub mod Tracked
use merge_mate.Base.{
  ℕ, ◌+◌, String, Bool, true, false, not, ◌&&◌, ◌||◌, Option, none, some, List, [], ◌∷◌, ◌++◌, ◌≡◌,
  str_eq, elem, ◌==◌, if◌then◌else◌, select,
}
use merge_mate.Config.{get_entry}

pub record WatcherTask : Type 0 where
  pub id : ℕ
  pub run_id : String
  pub done : Bool

-- `progress_watchers`, `terminal_deliveries`, the tasks, and the id of the next one.
pub record Watchers : Type 0 where
  pub registry : List (String × ℕ)
  pub terminal_deliveries : List String
  pub tasks : List WatcherTask
  pub next : ℕ

-- A dictionary's `d[key] = value` and `pop`, a set's `add` and `discard`.
unfoldable pub set_entry : String → ℕ → List (String × ℕ) → List (String × ℕ)
set_entry key v [] = (key, v) ∷ []
set_entry key v ((k, w) ∷ rest) =
    if str_eq k key then (key, v) ∷ rest else (k, w) ∷ set_entry key v rest

unfoldable pub pop_entry : String → List (String × ℕ) → List (String × ℕ)
pop_entry key entries = select (λ (e : String × ℕ). not (str_eq e.0 key)) entries

unfoldable pub discard : String → List String → List String
discard name names = select (λ n. not (str_eq n name)) names

-- A task that is not done: `not task.done()`.
unfoldable pub is_live : ℕ → List WatcherTask → Bool
is_live id [] = false
is_live id (t ∷ ts) = if t.id == id then not t.done else is_live id ts

abbrev pub is_running : List WatcherTask → Option ℕ → Bool
is_running tasks none = false
is_running tasks (some id) = is_live id tasks

-- `start_progress_watcher`
unfoldable pub start_progress_watcher : String → Watchers → Watchers
unfolding set_entry is_live
start_progress_watcher run w =
    if is_running w.tasks (get_entry run w.registry) then w else record w {
      registry = set_entry run w.next w.registry;
      tasks = record { id = w.next; run_id = run; done = false } ∷ w.tasks;
      next = w.next + 1;
    }

unfoldable pub end_task : (WatcherTask → Bool) → List WatcherTask → List WatcherTask
end_task p [] = []
end_task p (t ∷ ts) = record t { done = t.done || p t } ∷ end_task p ts

-- The end of a task's loop.
unfoldable pub finish : ℕ → Watchers → Watchers
unfolding end_task
finish id w = record w { tasks = end_task (λ t. t.id == id) w.tasks }

abbrev pub is_task : ℕ → Option ℕ → Bool
is_task id none = false
is_task id (some other) = other == id

-- `_cleanup`, for the task with this id of a run.
unfoldable pub cleanup : ℕ → String → Watchers → Watchers
unfolding pop_entry discard
cleanup id run w = record w {
  registry = if is_task id (get_entry run w.registry) then pop_entry run w.registry else w.registry;
  terminal_deliveries = discard run w.terminal_deliveries;
}

unfoldable pub has_task : ℕ → List (String × ℕ) → Bool
has_task id [] = false
has_task id ((k, v) ∷ rest) = v == id || has_task id rest

-- `stop_progress_watchers`, where nothing starts a watcher while it waits for the cancelled tasks.
unfoldable pub stop_progress_watchers : Watchers → Watchers
unfolding end_task has_task
stop_progress_watchers w = record w {
  registry = [];
  terminal_deliveries = [];
  tasks = end_task (λ t. has_task t.id w.registry) w.tasks;
}

-- The registry of `terminal_deliveries`: `add`.
unfoldable pub deliver : String → Watchers → Watchers
deliver run w = record w {
  terminal_deliveries =
      if elem run w.terminal_deliveries
      then w.terminal_deliveries
      else w.terminal_deliveries ++ run ∷ [];
}

-- What may happen, in any order: the callback of a task runs when the task is done.
pub data WatchersStep : Watchers → Watchers → Type 0 where
  starts : (w : Watchers) (run : String) → WatchersStep w (start_progress_watcher run w)
  ends : (w : Watchers) (id : ℕ) → WatchersStep w (finish id w)
  delivers : (w : Watchers) (run : String) → WatchersStep w (deliver run w)
  cleans :
      (w : Watchers) (id : ℕ) (run : String)
      → is_live id w.tasks ≡ false
      → WatchersStep w (cleanup id run w)
  stops : (w : Watchers) → WatchersStep w (stop_progress_watchers w)

abbrev pub no_watchers : Watchers
no_watchers = record { registry = []; terminal_deliveries = []; tasks = []; next = 0 }

pub data IsReached : Watchers → Type 0 where
  at_start : IsReached no_watchers
  behind : {v w : Watchers} → IsReached v → WatchersStep v w → IsReached w
