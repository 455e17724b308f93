-- ===== src/Gateway/Retry/Window.antt =====
-- The retry budget: the window holds no more retries than it allows, and what a rate limit costs.
use mathlib.Core.Path.{subst}
use merge_mate.Base.{
  ℕ, zero, suc, ◌+◌, ◌≤◌, ◌<◌, ◌≡◌, inl, inr, refl, false, not, none, some, arith, length,
  Option-cases, Bool-cases, List, leb, ltb, ◌++◌, ◌∷◌, [], All, ltb→lt, sym, select, ap, ◌∙◌, ◌⊎◌,
}
use merge_mate.Gateway.Retry.Loop.{Round-cases}
use merge_mate.Gateway.Retry.{
  Failure, http_status, is_retryable, is_rate_limit, extract_retry_after, RetryConfig, Net,
  RetryBudget, or_new, budget_of, get_budget, can_retry, record_retry, Reply, text, failed, Outside,
  Verdict, stop, again, Round, finished, next, invoke, pause, spend, after_failure, round, round_of,
  verdict_round, retry_loop, with_retry, sweep, read_header, RetryAfter,
}

length-snoc : (ts : List ℕ) (t : ℕ) → length (ts ++ t ∷ []) ≡ length ts + 1
length-snoc [] t = omega arith
length-snoc (x ∷ ts) t = omega (arith, length-snoc ts t)

length-sweep : (window now : ℕ) (ts : List ℕ) → length (sweep window now ts) ≤ length ts
unfolding sweep
length-sweep window now [] = omega arith
length-sweep window now (t ∷ ts) = elim (Bool-cases (ltb (t + window) now)) [
  | inl e ↦ rw e (omega (arith, length-sweep window now ts))
  | inr e ↦ rw e (omega arith)
]

-- The oldest entry first, which is how `record` appends them.
abbrev pub IsAscending : List ℕ → Type 0
IsAscending [] = Unit
IsAscending (t ∷ ts) = All (λ u. t ≤ u) ts × IsAscending ts

IsAscending-recent :
    (window now t : ℕ) (ts : List ℕ)
    → ltb (t + window) now ≡ false
    → All (λ u. t ≤ u) ts
    → select (λ u. not (ltb (u + window) now)) ts ≡ ts
unfolding select
IsAscending-recent window now t [] h a = refl
IsAscending-recent window now t (u ∷ ts) h a =
    ground (arith, IsAscending-recent window now t ts h a.1)

-- Dropping from the front until an entry is recent leaves exactly the entries of the window.
pub sweep-eq-select :
    (window now : ℕ) (ts : List ℕ)
    → IsAscending ts
    → sweep window now ts ≡ select (λ t. not (ltb (t + window) now)) ts
unfolding sweep select
sweep-eq-select window now [] a = refl
sweep-eq-select window now (t ∷ ts) a = elim (Bool-cases (ltb (t + window) now)) [
  | inl e ↦ rw e (sweep-eq-select window now ts a.1)
  | inr e ↦ rw e (ap (λ l. t ∷ l) (sym (IsAscending-recent window now t ts e a.0)))
]

-- A state whose shared budget has the limits of `b`, and in its window at most the retries that `b`
-- allows.
abbrev pub IsWithin : RetryBudget → Net → Type 0
IsWithin b n =
    (kept : RetryBudget) × (n.budget ≡ some kept)
    × (kept.window ≡ b.window)
    × (kept.allowed ≡ b.allowed)
    × (length kept.timestamps ≤ b.allowed)

-- The calls and the sleeps, in which other tasks run, keep the shared budget within its limits.
pub record KeepsBudget (o : Outside) (b : RetryBudget) : Type 0 where
  pub call_keeps : (n : Net) → IsWithin b n → IsWithin b (o.call n).1
  pub sleep_keeps : (d : ℕ) (n : Net) → IsWithin b n → IsWithin b (o.sleep d n)

module _ (o : Outside) (cfg : RetryConfig) (b : RetryBudget) where
  abbrev IsWithinVerdict : Verdict → Type 0
  IsWithinVerdict (stop e n) = IsWithin b n
  IsWithinVerdict (again n) = IsWithin b n

  abbrev IsWithinRound : Round → Type 0
  IsWithinRound (finished r n) = IsWithin b n
  IsWithinRound (next n) = IsWithin b n

  module _ (keeps : KeepsBudget o b) where
    spend-IsWithin :
        (attempt : ℕ) (n : Net) → IsWithin b n → IsWithinVerdict (spend o cfg attempt n)
    unfolding spend
    spend-IsWithin attempt n (kept, here, window, allowed, within) =
        let fewer = length-sweep kept.window n.now kept.timestamps in
        elim (Bool-cases (ltb (length (sweep kept.window n.now kept.timestamps)) kept.allowed)) [
          | inl e ↦
              let ts = sweep kept.window n.now kept.timestamps in
              unfold can_retry record_retry in
              rw here (
                rw e (
                  keeps.sleep_keeps _ _ (
                    _,
                    refl,
                    window,
                    allowed,
                    omega (arith, length-snoc ts n.now, ltb→lt _ _ e, allowed),
                  )))
          | inr e ↦
              unfold can_retry in
              rw here (rw e (_, refl, window, allowed, omega (arith, fewer, within)))
        ]

    after_failure-IsWithin :
        (attempt : ℕ) (e : Failure) (n : Net)
        → IsWithin b n
        → IsWithinVerdict (after_failure o cfg attempt e n)
    unfolding after_failure
    after_failure-IsWithin attempt e n h = elim (Bool-cases (is_retryable e)) [
      | inr r ↦ rw r h
      | inl r ↦ elim (Bool-cases (leb cfg.max_retries attempt)) [
        | inl m ↦ rw (r, m) h
        | inr m ↦ elim (Bool-cases (is_rate_limit e)) [
          | inr l ↦ rw (r, m, l) (spend-IsWithin attempt n h)
          | inl l ↦ elim (Option-cases (extract_retry_after (o.utc n) e)) [
            | inl x ↦ rw (r, m, l) (rw x (spend-IsWithin attempt n h))
            | inr (d, x) ↦ rw (r, m, l) (rw x (unfold pause in keeps.sleep_keeps d n h))
          ]
        ]
      ]
    ]

    verdict_round-IsWithin : (v : Verdict) → IsWithinVerdict v → IsWithinRound (verdict_round v)
    verdict_round-IsWithin (stop e n) h = h
    verdict_round-IsWithin (again n) h = h

    round_of-IsWithin :
        (attempt : ℕ) (n : Net) (r : Reply)
        → IsWithin b n
        → IsWithinRound (round_of o cfg attempt n r)
    unfolding round
    round_of-IsWithin attempt n (text t) h = h
    round_of-IsWithin attempt n (failed e) h =
        verdict_round-IsWithin _ (after_failure-IsWithin attempt e n h)

    round-IsWithin : (attempt : ℕ) (n : Net) → IsWithin b n → IsWithinRound (round o cfg attempt n)
    unfolding round
    round-IsWithin attempt n h =
        round_of-IsWithin attempt (invoke o cfg n).1 (o.call n).0
          (unfold invoke in keeps.call_keeps n h)

    retry_loop-IsWithin :
        (left attempt : ℕ) (n : Net) → IsWithin b n → IsWithin b (retry_loop o cfg left attempt n).1
    unfolding retry_loop
    retry_loop-IsWithin zero attempt n h = h
    retry_loop-IsWithin (suc left) attempt n h = elim (Round-cases (round o cfg attempt n)) [
      | inl (r, m, v) ↦ rw (v, retry_loop) (subst IsWithinRound v (round-IsWithin attempt n h))
      | inr (m, v) ↦
          rw (v, retry_loop)
            (retry_loop-IsWithin left (attempt + 1) m
              (subst IsWithinRound v (round-IsWithin attempt n h)))
    ]

-- The budget that all calls share, or the one that this call makes as the first.
abbrev pub IsShared : RetryConfig → Net → RetryBudget → Type 0
IsShared cfg n b =
    (n.budget ≡ some b)
    ⊎ ((n.budget ≡ none)
        × (b ≡ record {
          window = cfg.budget_window;
          allowed = cfg.budget_max_retries;
          timestamps = [];
        }))

IsShared-budget_of :
    (cfg : RetryConfig) (n : Net) (b : RetryBudget) → IsShared cfg n b → budget_of cfg n ≡ b
IsShared-budget_of cfg n b (inl there) = ap (or_new cfg) there
IsShared-budget_of cfg n b (inr (absent, made)) = ap (or_new cfg) absent ∙ sym made

-- If the shared retry budget, or the one that this first call makes by its policy, holds no more
-- timestamps than it allows, and the tasks that run during the calls and sleeps keep it so, then
-- it is so after with_retry: the budget has the same limits, whatever the policy of this call, and
-- holds no more timestamps than they allow.
pub with_retry-IsWithin :
    (o : Outside) (cfg : RetryConfig) (n : Net) (b : RetryBudget)
    → IsShared cfg n b
    → KeepsBudget o b
    → length b.timestamps ≤ b.allowed
    → IsWithin b (with_retry o cfg n).1
unfolding with_retry get_budget
with_retry-IsWithin o cfg n b shared keeps h =
    retry_loop-IsWithin o cfg b keeps (suc cfg.max_retries) 0 _
      (b, ap some (IsShared-budget_of cfg n b shared), refl, refl, h)

-- While retries are left, a 429 with a readable Retry-After sleeps for that long and records no
-- retry, and one without is charged to the budget.
pub rate_limit-budget :
    (o : Outside) (cfg : RetryConfig) (attempt : ℕ) (header : RetryAfter) (n : Net)
    → attempt < cfg.max_retries
    → after_failure o cfg attempt (http_status 429 header) n ≡ elim (read_header (o.utc n) header) [
      | some d ↦ again (record (o.sleep d n) { calls = n.calls })
      | none ↦ spend o cfg attempt n
    ]
unfolding after_failure pause is_retryable is_rate_limit extract_retry_after
rate_limit-budget o cfg attempt header n h =
    let early : leb cfg.max_retries attempt ≡ false = ground arith in rw early
