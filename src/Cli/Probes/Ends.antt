-- ===== src/Cli/Probes/Ends.antt =====
-- When the readiness probe comes to an end.
use merge_mate.Base.{
  ℕ, zero, suc, ◌+◌, ◌-◌, ◌≤◌, ◌<◌, String, true, not, ◌&&◌, Option, none, some, ◌≡◌, refl,
  Bool-cases, inl, inr, arith,
}
use merge_mate.Cli.Shell.{
  Shell, Result, returned, exits, failed_with, running, Command, continue, echo_to,
}
use merge_mate.Cli.Probes.{
  Reply, opened, http_error, url_error, broken, Probe, opened_probe, probe_readiness_once,
  report_not_ready, Probing, gives_up, probed, probe_loop, probe_readiness,
}

module _ (o : Probing) where
  -- The request and the sleep let time pass, and do not turn it back.
  abbrev pub IsTimed : Type 0
  IsTimed =
      ((s : Shell) → s.monotonic ≤ (o.request s).1.monotonic)
      × ((s : Shell) → s.monotonic + o.interval ≤ (o.sleep o.interval s).monotonic)

  -- A command that came to an end: with a return, or the code 1, or an exception.
  abbrev pub IsStopped : Result (Unit {0}) → Type 0
  IsStopped (returned a) = Unit
  IsStopped (exits code) = code ≡ 1
  IsStopped (failed_with e) = Unit
  IsStopped running = ⊥

  -- What a probe gives.
  abbrev IsProbed : Result Probe → Type 0
  IsProbed (returned p) = Unit
  IsProbed (failed_with e) = Unit
  IsProbed (exits code) = ⊥
  IsProbed running = ⊥

  opened_probe-IsProbed :
      (body : String) (d : Option (Option String))
      → IsProbed (opened_probe o.decode o.no_json body d)
  opened_probe-IsProbed body none = tt
  opened_probe-IsProbed body (some status) = tt

  probe_readiness_once-IsProbed : (r : Reply) → IsProbed (probe_readiness_once o.decode o.no_json r)
  unfolding probe_readiness_once
  probe_readiness_once-IsProbed (opened body) = opened_probe-IsProbed body (o.decode body)
  probe_readiness_once-IsProbed (http_error body) = tt
  probe_readiness_once-IsProbed (url_error reason) = tt
  probe_readiness_once-IsProbed (broken e) = tt

  report_not_ready-IsStopped :
      (p : Probe) (text : Option String) (s : Shell) → IsStopped (report_not_ready p text s).0
  unfolding report_not_ready echo_to
  report_not_ready-IsStopped p none s = refl
  report_not_ready-IsStopped p (some text) s = refl

  probed-IsStopped :
      (start : ℕ) (next : Command (Unit {0})) (r : Result Probe) (s : Shell)
      → IsProbed r
      → ((o.wait && not (gives_up o o.max_wait (s.monotonic - start))) ≡ true
          → IsStopped (next (o.sleep o.interval s)).0)
      → IsStopped (continue r (probed o start next) s).0
  unfolding probed echo_to
  probed-IsStopped start next running s r h = absurd r
  probed-IsStopped start next (failed_with e) s r h = tt
  probed-IsStopped start next (exits code) s r h = absurd r
  probed-IsStopped start next (returned p) s r h = elim (Bool-cases p.is_ready) [
    | inl e ↦ rw e tt
    | inr e ↦ elim (Bool-cases o.wait) [
      | inr w ↦ rw (e, w) (report_not_ready-IsStopped p none s)
      | inl w ↦ elim (Bool-cases (gives_up o o.max_wait (s.monotonic - start))) [
        | inl g ↦ rw (e, w, g) (report_not_ready-IsStopped p _ s)
        | inr g ↦ rw (e, w, g) (h (rw (w, g) refl))
      ]
    ]
  ]

  -- The sleep is only reached before the most time to wait is over.
  goes_on-lt :
      (most elapsed : ℕ) → (o.wait && not (gives_up o (some most) elapsed)) ≡ true → elapsed < most
  goes_on-lt most elapsed h = ground (arith, h)

  probe_loop-IsStopped :
      (fuel most start : ℕ) (s : Shell)
      → IsTimed
      → 1 ≤ o.interval
      → o.max_wait ≡ some most
      → start ≤ s.monotonic
      → most ≤ (s.monotonic - start) + fuel
      → IsStopped (probe_loop o (suc fuel) start s).0
  unfolding probe_loop
  probe_loop-IsStopped zero most start s timed pos limit begun h =
      probed-IsStopped start (probe_loop o zero start) _ (o.request s).1
        (probe_readiness_once-IsProbed (o.request s).0)
        (λ go.
          let lt = goes_on-lt most _ (rw limit at go) in
          absurd (omega (arith, lt, timed.0 s, begun, h)))
  probe_loop-IsStopped (suc fuel) most start s timed pos limit begun h =
      probed-IsStopped start (probe_loop o (suc fuel) start) _ (o.request s).1
        (probe_readiness_once-IsProbed (o.request s).0)
        (λ go.
          let t = (o.request s).1 in
          probe_loop-IsStopped fuel most start (o.sleep o.interval t) timed pos limit
            (omega (arith, timed.0 s, timed.1 t, begun))
            (omega (arith, timed.0 s, timed.1 t, begun, h, pos)))

  pub probe_readiness-IsStopped :
      (most : ℕ) (s : Shell)
      → IsTimed
      → 1 ≤ o.interval
      → o.max_wait ≡ some most
      → IsStopped (probe_readiness o (suc most) s).0
  unfolding probe_readiness
  probe_readiness-IsStopped most s timed pos limit =
      probe_loop-IsStopped most most s.monotonic s timed pos limit (omega arith) (omega arith)
