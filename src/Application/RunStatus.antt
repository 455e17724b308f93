-- ===== src/Application/RunStatus.antt =====
-- src/mergemate/application/use_cases/get_run_status.py.
use mathlib.Core.Path.{subst}
use mathlib.Core.List.{Memᴰ}
use merge_mate.Base.{
  length, eq_iff, All-mp, find, All-find, All-self, ℕ, ◌≤◌, String, Bool, true, false, not, Option,
  none, some, List, [], ◌∷◌, ◌≡◌, refl, sym, if◌then◌else◌, Option-cases, Bool-cases, inl, inr, All,
  arith,
}
use merge_mate.Domain.Runs.{ChatId, chat_eq, AgentRun}
use merge_mate.Persistence.RunRepository.{Table, keyed, get, get_latest_non_terminal_for_chat}
use merge_mate.Persistence.ToolEvents.{ToolEvent, list_for_run, of_run, event_time}
use merge_mate.Persistence.RunRepository.Reads.{latest_is_newest}
use merge_mate.Persistence.Recent.{recent-holds, recent-length}
use merge_mate.World.Effects.{value_error, Outcome, ok, raised}

pub record RunStatusSnapshot : Type 0 where
  pub run : AgentRun
  pub tool_events : List ToolEvent

-- `latest_tool_event`
abbrev pub latest_tool_event : RunStatusSnapshot → Option ToolEvent
latest_tool_event s = elim s.tool_events [ [] ↦ none | e ∷ es ↦ some e ]

-- `_build_snapshot`; the table of events is none if there is no repository of tool events.
unfoldable pub build_snapshot : Option (List ToolEvent) → ℕ → AgentRun → RunStatusSnapshot
build_snapshot none limit run = record { run = run; tool_events = [] }
build_snapshot (some events) limit run = record {
  run = run;
  tool_events = list_for_run run.run_id limit events;
}

abbrev pub foreign : Option ChatId → AgentRun → Bool
foreign none run = false
foreign (some chat) run = not (chat_eq run.chat_id chat)

module _ (events : Option (List ToolEvent)) (limit : ℕ) where
  abbrev pub snapshot_of : Option AgentRun → Option RunStatusSnapshot
  snapshot_of none = none
  snapshot_of (some run) = some (build_snapshot events limit run)

  abbrev pub shown : Option ChatId → Option AgentRun → Option RunStatusSnapshot
  shown chat none = none
  shown chat (some run) = if foreign chat run then none else some (build_snapshot events limit run)

  -- `execute`
  unfoldable pub execute :
      Option String → Option ChatId → Table → Outcome (Option RunStatusSnapshot)
  execute (some id) chat t = ok (shown chat (find (keyed id) t))
  execute none none t =
      raised
        (record { kind = value_error; text = "chat_id is required when run_id is not provided" })
  execute none (some chat) t = ok (snapshot_of (get_latest_non_terminal_for_chat chat t))

abbrev pub IsShown : ℕ → RunStatusSnapshot → Type 0
IsShown limit s = All (λ e. e.run_id ≡ s.run.run_id) s.tool_events × (length s.tool_events ≤ limit)

build_snapshot-IsShown :
    (events : Option (List ToolEvent)) (limit : ℕ) (run : AgentRun)
    → IsShown limit (build_snapshot events limit run)
unfolding build_snapshot list_for_run
build_snapshot-IsShown none limit run = (tt, omega arith)
build_snapshot-IsShown (some rows) limit run = (
  All-mp _ _ (λ e own. (eq_iff e.run_id run.run_id).0 own) _
      (recent-holds event_time (of_run run.run_id) limit rows),
  recent-length event_time (of_run run.run_id) limit rows,
)

build_snapshot-run :
    (events : Option (List ToolEvent)) (limit : ℕ) (run : AgentRun)
    → (build_snapshot events limit run).run ≡ run
unfolding build_snapshot
build_snapshot-run none limit run = refl
build_snapshot-run (some rows) limit run = refl

module _ (events : Option (List ToolEvent)) (limit : ℕ) where
  abbrev pub IsOf : ChatId → Table → RunStatusSnapshot → Type 0
  IsOf chat t s = Memᴰ s.run t × (chat_eq s.run.chat_id chat ≡ true) × IsShown limit s

  built-IsOf :
      (chat : ChatId) (t : Table) (run : AgentRun)
      → Memᴰ run t
      → chat_eq run.chat_id chat ≡ true
      → IsOf chat t (build_snapshot events limit run)
  built-IsOf chat t run member own =
      let same = sym (build_snapshot-run events limit run) in
      (
        subst (λ r. Memᴰ r t) same member,
        subst (λ (r : AgentRun). chat_eq r.chat_id chat ≡ true) same own,
        build_snapshot-IsShown events limit run,
      )

  -- A query that names a chat does not raise.
  pub execute-ok :
      (id : Option String) (chat : ChatId) (t : Table)
      → (o : Option RunStatusSnapshot) × (execute events limit id (some chat) t ≡ ok o)
  unfolding execute
  execute-ok (some id) chat t = (_, refl)
  execute-ok none chat t = (_, refl)

  -- For a chat, a snapshot is of a run of the table that is of the chat, with tool events of that run
  -- only, and not more than the limit.
  pub execute-IsPrivate :
      (id : Option String) (chat : ChatId) (t : Table) (s : RunStatusSnapshot)
      → execute events limit id (some chat) t ≡ ok (some s)
      → IsOf chat t s
  unfolding execute get
  execute-IsPrivate (some id) chat t s h = elim (Option-cases (find (keyed id) t)) [
    | inl absent ↦ let h' = rw absent at h in ground (arith, h')
    | inr (run, found) ↦ elim (Bool-cases (chat_eq run.chat_id chat)) [
      | inl own ↦
          let same : build_snapshot events limit run ≡ s = cc (rw (found, own) at h) in
          subst (IsOf chat t) same
            (built-IsOf chat t run (All-find (λ x. Memᴰ x t) _ t run (All-self t) found) own)
      | inr other ↦ let h' = rw (found, other) at h in ground (arith, h')
    ]
  ]
  execute-IsPrivate none chat t s h =
      elim (Option-cases (get_latest_non_terminal_for_chat chat t)) [
        | inl absent ↦ let h' = rw absent at h in ground (arith, h')
        | inr (run, found) ↦
            let same : build_snapshot events limit run ≡ s = cc (rw found at h) in
            let live = latest_is_newest chat t run found in
            subst (IsOf chat t) same (built-IsOf chat t run live.0 live.1.0)
      ]
