-- ===== src/World.antt =====
-- The state that the use cases, the worker and the tools share, and the actions on it. An action
-- returns a value or raises, and what was written before an exception stays written. Where the
-- source awaits other code, that code is an arbitrary action: it may also bring back a world in
-- which other tasks have run meanwhile.
pub mod Effects
unfoldable pub use Effects.*
use merge_mate.Base.{
  ℕ, zero, suc, ◌+◌, String, Bool, true, false, Option, none, some, List, [], ◌∷◌, ◌++◌,
}
use merge_mate.Domain.Runs.{AgentRun, RunJob, ChatId}
use merge_mate.Persistence.RunRepository.{Table}
use merge_mate.Persistence.JobRepository.{Jobs}
use merge_mate.Persistence.Conversations.{Message, append_row}
use merge_mate.Persistence.ToolEvents.{ToolEvent}
use merge_mate.Queue.{LocalQueue}

-- `clock` is the reading of `datetime.now`, and `drawn` counts the ids that `uuid4` has drawn.
pub record World : Type 0 where
  pub runs : Table
  pub jobs : Jobs
  pub messages : List Message
  pub events : List ToolEvent
  pub queue : LocalQueue
  pub clock : ℕ
  pub drawn : ℕ

abbrev pub Action : Type 0 → Type 0
Action A = Exec World A

-- A call of the run repository, at the time of the clock.
unfoldable pub on_runs : {A : Type 0} → (ℕ → Table → A × Table) → Action A
on_runs f w = let (a, t) = f w.clock w.runs in (ok a, record w { runs = t })

unfoldable pub on_jobs : {A : Type 0} → (ℕ → Jobs → A × Jobs) → Action A
on_jobs f w = let (a, t) = f w.clock w.jobs in (ok a, record w { jobs = t })

unfoldable pub on_queue : {A : Type 0} → (LocalQueue → A × LocalQueue) → Action A
on_queue f w = let (a, q) = f w.queue in (ok a, record w { queue = q })

-- `uuid4`, for the sequence of the ids that it draws.
unfoldable pub draw : (ℕ → String) → Action String
draw uuid w = (ok (uuid w.drawn), record w { drawn = w.drawn + 1 })

-- `SQLiteConversationRepository.append_message`, which `ContextService` passes on.
unfoldable pub append_message : ChatId → String → String → Action (Unit {0})
append_message chat role content w =
    (ok tt, record w { messages = append_row chat role content w.clock w.messages })
