-- ===== src/Gateway/Retry/Loop.antt =====
-- How often `with_retry` calls the provider, and when it stops.
use mathlib.Core.Path.{subst}
use merge_mate.Base.{
  ℕ, zero, suc, ◌+◌, ◌≤◌, ◌<◌, ◌≡◌, ◌≢◌, ◌⊎◌, inl, inr, refl, false, arith, Option-cases,
  Bool-cases, leb,
}
use merge_mate.Gateway.Retry.{
  Failure, is_retryable, is_rate_limit, extract_retry_after, RetryConfig, Net, can_retry, budget_of,
  get_budget, Reply, text, failed, Outside, Verdict, stop, again, Result, Round, finished, next,
  round, round_of, verdict_round, raised, unreachable, invoke, pause, spend, after_failure,
  retry_loop, with_retry,
}

module _ (o : Outside) (cfg : RetryConfig) where
  -- A verdict after the call number `attempt` that keeps the number of the calls, and that goes on
  -- only while retries are left.
  abbrev IsFair : ℕ → Net → Verdict → Type 0
  IsFair attempt n (stop e n') = n'.calls ≡ n.calls
  IsFair attempt n (again n') = (n'.calls ≡ n.calls) × (attempt < cfg.max_retries)

  spend-IsFair :
      (attempt : ℕ) (n : Net) → attempt < cfg.max_retries → IsFair attempt n (spend o cfg attempt n)
  unfolding spend
  spend-IsFair attempt n h = elim (Bool-cases (can_retry n.now (budget_of cfg n)).0) [
    | inl e ↦ rw e (refl, h)
    | inr e ↦ rw e refl
  ]

  after_failure-IsFair :
      (attempt : ℕ) (e : Failure) (n : Net) → IsFair attempt n (after_failure o cfg attempt e n)
  unfolding after_failure
  after_failure-IsFair attempt e n = elim (Bool-cases (is_retryable e)) [
    | inr r ↦ rw r refl
    | inl r ↦ elim (Bool-cases (leb cfg.max_retries attempt)) [
      | inl m ↦ rw (r, m) refl
      | inr m ↦
          let more : attempt < cfg.max_retries = ground arith in
          elim (Bool-cases (is_rate_limit e)) [
            | inr l ↦ rw (r, m, l) (spend-IsFair attempt n more)
            | inl l ↦ elim (Option-cases (extract_retry_after (o.utc n) e)) [
              | inl h ↦ rw (r, m, l) (rw h (spend-IsFair attempt n more))
              | inr (d, h) ↦ rw (r, m, l) (rw h (unfold pause in (refl, more)))
            ]
          ]
    ]
  ]

  abbrev IsFairRound : ℕ → ℕ → Round → Type 0
  IsFairRound attempt calls (finished r n) = (n.calls ≡ calls) × (r ≢ unreachable)
  IsFairRound attempt calls (next n) = (n.calls ≡ calls) × (attempt < cfg.max_retries)

  verdict_round-IsFair :
      (attempt : ℕ) (n : Net) (v : Verdict)
      → IsFair attempt n v
      → IsFairRound attempt n.calls (verdict_round v)
  verdict_round-IsFair attempt n (stop e m) h = (h, λ x. cc)
  verdict_round-IsFair attempt n (again m) h = h

  round_of-IsFair :
      (attempt : ℕ) (n : Net) (r : Reply) → IsFairRound attempt n.calls (round_of o cfg attempt n r)
  unfolding round
  round_of-IsFair attempt n (text t) = (refl, λ x. cc)
  round_of-IsFair attempt n (failed e) =
      verdict_round-IsFair attempt n _ (after_failure-IsFair attempt e n)

  -- One round makes one call.
  round-IsFair : (attempt : ℕ) (n : Net) → IsFairRound attempt (n.calls + 1) (round o cfg attempt n)
  unfolding round
  round-IsFair attempt n = round_of-IsFair attempt (invoke o cfg n).1 (invoke o cfg n).0

pub Round-cases :
    (v : Round) → ((r : Result) × (n : Net) × (v ≡ finished r n)) ⊎ ((n : Net) × (v ≡ next n))
Round-cases (finished r n) = inl (r, n, refl)
Round-cases (next n) = inr (n, refl)

-- The bounds on a run of the loop that starts with `done` calls and has `left` calls left.
abbrev IsBounded : ℕ → ℕ → Result × Net → Type 0
IsBounded done left out =
    (out.0 ≢ unreachable) × (done + 1 ≤ out.1.calls) × (out.1.calls ≤ done + left)

module _ (o : Outside) (cfg : RetryConfig) where
  retry_loop-IsBounded :
      (left attempt : ℕ) (n : Net)
      → left + attempt ≡ cfg.max_retries
      → IsBounded n.calls (suc left) (retry_loop o cfg (suc left) attempt n)
  unfolding retry_loop
  retry_loop-IsBounded zero attempt n total = elim (Round-cases (round o cfg attempt n)) [
    | inl (r, m, v) ↦
        let fair : IsFairRound o cfg attempt (n.calls + 1) (finished r m) =
          subst (IsFairRound o cfg attempt (n.calls + 1)) v (round-IsFair o cfg attempt n) in
        rw (v, retry_loop) (fair.1, omega arith, omega arith)
    | inr (m, v) ↦
        let fair : IsFairRound o cfg attempt (n.calls + 1) (next m) =
          subst (IsFairRound o cfg attempt (n.calls + 1)) v (round-IsFair o cfg attempt n) in
        absurd (omega arith)
  ]
  retry_loop-IsBounded (suc left) attempt n total = elim (Round-cases (round o cfg attempt n)) [
    | inl (r, m, v) ↦
        let fair : IsFairRound o cfg attempt (n.calls + 1) (finished r m) =
          subst (IsFairRound o cfg attempt (n.calls + 1)) v (round-IsFair o cfg attempt n) in
        rw (v, retry_loop) (fair.1, omega arith, omega arith)
    | inr (m, v) ↦
        let fair : IsFairRound o cfg attempt (n.calls + 1) (next m) =
          subst (IsFairRound o cfg attempt (n.calls + 1)) v (round-IsFair o cfg attempt n) in
        let rest = retry_loop-IsBounded left (attempt + 1) m (omega arith) in
        rw (v, retry_loop) (rest.0, omega arith, omega arith)
  ]

  -- with_retry returns or raises after at least one and at most max_retries + 1 calls of the
  -- provider, and never comes to the statement behind its loop.
  pub with_retry-IsBounded :
      (n : Net)
      → let (r, n') = with_retry o cfg n in
        (r ≢ unreachable) × (n.calls < n'.calls) × (n'.calls ≤ n.calls + cfg.max_retries + 1)
  unfolding with_retry get_budget
  with_retry-IsBounded n =
      let bounds = retry_loop-IsBounded cfg.max_retries 0 (get_budget cfg n) (omega arith) in
      (bounds.0, omega arith, omega arith)

  -- If the first call fails with a failure that is not transient, with_retry raises that failure
  -- after this one call.
  pub with_retry-permanent :
      (n : Net) (e : Failure)
      → (o.call (get_budget cfg n)).0 ≡ failed e
      → is_retryable e ≡ false
      → with_retry o cfg n ≡ (raised e, (invoke o cfg (get_budget cfg n)).1)
  unfolding with_retry after_failure invoke
  with_retry-permanent n e r h =
      let v : round o cfg 0 (get_budget cfg n)
          ≡ finished (raised e) (invoke o cfg (get_budget cfg n)).1 =
        rw r (rw h) in
      rw (v, retry_loop)
