-- ===== src/Cli/Polls.antt =====
-- src/mergemate/cli.py, `_poll_run`: a command waits for the end of a run. `sleep` is the time that passes
-- and all that others do meanwhile.
pub mod Waits
use merge_mate.Base.{
  ℕ, zero, suc, ◌+◌, ◌≤◌, ◌<◌, String, Bool, true, false, Option, none, some, List, [], ◌∷◌, ◌++◌,
  ◌≡◌, ◌≢◌, refl, if◌then◌else◌, ltb, ltb→lt, Bool-cases, Option-cases, inl, inr, ◌⊎◌, arith,
}
use merge_mate.Domain.Status.{is_terminal}
use merge_mate.Persistence.ToolEvents.{ToolEvent}
use merge_mate.Application.RunStatus.{RunStatusSnapshot, execute}
use merge_mate.World.{Outcome, ok, raised}
use merge_mate.Cli.Shell.{
  Shell, Result, returned, exits, failed_with, running, Command, pure, exit, gets, result_of,
  continue, echo_to, ◌>>=◌, ◌>>◌,
}

-- `get_run_status.execute(run_id)`, with its default of events.
abbrev pub get_run_status : String → Command (Option RunStatusSnapshot)
get_run_status id s = (result_of (execute (some s.world.events) 5 (some id) none s.world.runs), s)

-- `time.monotonic() < deadline`
abbrev pub before : Option ℕ → ℕ → Bool
before none now = true
before (some deadline) now = ltb now deadline

abbrev pub deadline_of : Option ℕ → ℕ → Option ℕ
deadline_of none now = none
deadline_of (some timeout) now = some (now + timeout)

module _ (sleep : ℕ → Shell → Shell) (poll_interval : ℕ) (id : String) where
  -- What a poll does with what it reads: it ends, or sleeps and goes on.
  unfoldable pub polled :
      Command RunStatusSnapshot → Option RunStatusSnapshot → Command RunStatusSnapshot
  polled next none s = (echo_to true "Run not found." >> exit 2) s
  polled next (some snapshot) s =
      if is_terminal snapshot.run.status
      then (returned snapshot, s)
      else next (sleep poll_interval s)

  unfoldable pub timed_out : Command RunStatusSnapshot
  timed_out = echo_to true "Timed out waiting for run to complete." >> exit 1

  -- The loop, for so many polls at most.
  unfoldable pub poll_loop : ℕ → Option ℕ → Command RunStatusSnapshot
  unfolding polled timed_out
  poll_loop zero deadline s = (running, s)
  poll_loop (suc fuel) deadline s =
      let next = (get_run_status id >>= polled (poll_loop fuel deadline)) s in
      if before deadline s.monotonic then next else timed_out s

  -- `_poll_run`
  unfoldable pub poll_run : ℕ → Option ℕ → Command RunStatusSnapshot
  unfolding poll_loop
  poll_run fuel timeout s = poll_loop fuel (deadline_of timeout s.monotonic) s

-- What the reading of the run gives.
abbrev pub status_of : String → Shell → Outcome (Option RunStatusSnapshot)
status_of id s = execute (some s.world.events) 5 (some id) none s.world.runs

module _ (sleep : ℕ → Shell → Shell) (poll_interval : ℕ) (id : String) where
  -- How polling ends, and the state then: with the run, which has ended; with the code 2, if there is
  -- no such run; with the code 1, behind the deadline.
  abbrev pub IsPolled : Option ℕ → Result RunStatusSnapshot × Shell → Type 0
  IsPolled deadline (returned snapshot, s) =
      (is_terminal snapshot.run.status ≡ true) × (status_of id s ≡ ok (some snapshot))
  IsPolled deadline (exits code, s) =
      ((code ≡ 2) × (status_of id s ≡ ok none))
      ⊎ ((code ≡ 1) × (before deadline s.monotonic ≡ false))
  IsPolled deadline (failed_with e, s) = Unit
  IsPolled deadline (running, s) = Unit

  polled-IsPolled :
      (next : Command RunStatusSnapshot) (deadline : Option ℕ) (s : Shell)
      → ((t : Shell) → IsPolled deadline (next t))
      → (r : Outcome (Option RunStatusSnapshot)) → status_of id s ≡ r
      → IsPolled deadline (continue (result_of r) (polled sleep poll_interval id next) s)
  unfolding polled echo_to
  polled-IsPolled next deadline s h (raised e) found = tt
  polled-IsPolled next deadline s h (ok none) found = inl (refl, found)
  polled-IsPolled next deadline s h (ok (some snapshot)) found =
      elim (Bool-cases (is_terminal snapshot.run.status)) [
        | inl e ↦ rw e (e, found)
        | inr e ↦ rw e (h (sleep poll_interval s))
      ]

  poll_loop-IsPolled :
      (fuel : ℕ) (deadline : Option ℕ) (s : Shell)
      → IsPolled deadline (poll_loop sleep poll_interval id fuel deadline s)
  unfolding poll_loop timed_out echo_to
  poll_loop-IsPolled zero deadline s = tt
  poll_loop-IsPolled (suc fuel) deadline s = elim (Bool-cases (before deadline s.monotonic)) [
    | inr e ↦ rw e (inr (refl, e))
    | inl e ↦ rw e (
        polled-IsPolled (poll_loop sleep poll_interval id fuel deadline) deadline s
          (poll_loop-IsPolled fuel deadline) (status_of id s) refl)
  ]

  -- If polling for a run returns a snapshot, the run's status is terminal and the snapshot is what
  -- the status query gives in the last state; if it exits, it is with the code 2 and there is no
  -- such run, or with the code 1 and the deadline is over.
  pub poll_run-IsPolled :
      (fuel : ℕ) (timeout : Option ℕ) (s : Shell)
      → IsPolled (deadline_of timeout s.monotonic) (poll_run sleep poll_interval id fuel timeout s)
  unfolding poll_run
  poll_run-IsPolled fuel timeout s = poll_loop-IsPolled fuel _ s
