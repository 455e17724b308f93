-- ===== src/Cli/Polls/Waits.antt =====
-- How long `_poll_run` waits.
use merge_mate.Base.{
  ℕ, zero, suc, ◌+◌, ◌≤◌, String, false, Option, none, some, ◌≡◌, ◌≢◌, refl, ap, ◌∙◌, ltb, ltb→lt,
  Bool-cases, inl, inr, arith,
}
use merge_mate.Domain.Status.{is_terminal}
use merge_mate.Application.RunStatus.{RunStatusSnapshot, execute}
use merge_mate.World.{Outcome, ok, raised}
use merge_mate.Cli.Shell.{Shell, running, Command, result_of, continue, echo_to}
use merge_mate.Cli.Polls.{polled, poll_loop, poll_run, timed_out, status_of}

module _ (sleep : ℕ → Shell → Shell) (poll_interval : ℕ) (id : String) where
  polled-returns :
      (next : Command RunStatusSnapshot) (s : Shell)
      → (next (sleep poll_interval s)).0 ≢ running
      → (r : Outcome (Option RunStatusSnapshot))
      → (continue (result_of r) (polled sleep poll_interval id next) s).0 ≢ running
  unfolding polled echo_to
  polled-returns next s h (raised e) = λ p. cc p
  polled-returns next s h (ok none) = λ p. cc p
  polled-returns next s h (ok (some snapshot)) =
      elim (Bool-cases (is_terminal snapshot.run.status)) [
        | inl e ↦ rw e (λ p. cc p)
        | inr e ↦ rw e h
      ]

  module _
      (advances : (s : Shell) → s.monotonic + poll_interval ≤ (sleep poll_interval s).monotonic)
      (positive : 1 ≤ poll_interval) where
    poll_loop-returns :
        (fuel deadline : ℕ) (s : Shell)
        → deadline ≤ s.monotonic + fuel
        → (poll_loop sleep poll_interval id (suc fuel) (some deadline) s).0 ≢ running
    unfolding poll_loop timed_out echo_to
    poll_loop-returns zero deadline s h = elim (Bool-cases (ltb s.monotonic deadline)) [
      | inr e ↦ rw e (λ p. cc p)
      | inl e ↦ absurd (omega (arith, h, ltb→lt s.monotonic deadline e))
    ]
    poll_loop-returns (suc fuel) deadline s h = elim (Bool-cases (ltb s.monotonic deadline)) [
      | inr e ↦ rw e (λ p. cc p)
      | inl e ↦ rw e (
          polled-returns (poll_loop sleep poll_interval id (suc fuel) (some deadline)) s
            (poll_loop-returns fuel deadline (sleep poll_interval s)
              (omega (arith, h, positive, advances s)))
            (status_of id s))
    ]

  -- With a timeout, an interval of one unit or more, and sleeps that let the interval pass,
  -- polling for a run does not go on after timeout + 1 polls.
  pub poll_run-returns :
      (timeout : ℕ) (s : Shell)
      → ((t : Shell) → t.monotonic + poll_interval ≤ (sleep poll_interval t).monotonic)
      → 1 ≤ poll_interval
      → (poll_run sleep poll_interval id (suc timeout) (some timeout) s).0 ≢ running
  unfolding poll_run
  poll_run-returns timeout s advances positive =
      poll_loop-returns advances positive timeout (s.monotonic + timeout) s (omega arith)

  -- Where nothing happens to the run meanwhile.
  module _ (snapshot : RunStatusSnapshot)
      (idle : (s : Shell) → (sleep poll_interval s).world ≡ s.world) where
    -- Without a deadline the loop goes on, whatever the fuel; behind it the code is 1.
    poll_loop-idle :
        (fuel : ℕ) (s : Shell)
        → is_terminal snapshot.run.status ≡ false
        → status_of id s ≡ ok (some snapshot)
        → (poll_loop sleep poll_interval id fuel none s).0 ≡ running
    unfolding poll_loop polled
    poll_loop-idle zero s going found = refl
    poll_loop-idle (suc fuel) s going found =
        rw (found, going)
          (poll_loop-idle fuel (sleep poll_interval s) going
            (ap (λ w. execute (some w.events) 5 (some id) none w.runs) (idle s) ∙ found))

  -- Without a timeout, polling for a run whose status is not terminal goes on for ever, as far as
  -- any fuel tells, if the runs and events stay as they are during the sleeps, as they do in a
  -- process that does not start the worker.
  pub poll_run-idle :
      (snapshot : RunStatusSnapshot) (fuel : ℕ) (s : Shell)
      → ((t : Shell) → (sleep poll_interval t).world ≡ t.world)
      → is_terminal snapshot.run.status ≡ false
      → status_of id s ≡ ok (some snapshot)
      → (poll_run sleep poll_interval id fuel none s).0 ≡ running
  unfolding poll_run
  poll_run-idle snapshot fuel s idle = poll_loop-idle snapshot idle fuel s
