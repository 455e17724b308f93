-- ===== src/Gateway/Retry.antt =====
-- src/mergemate/infrastructure/llm/gateway.py: which failures are tried again, the sliding window of
-- `_RetryBudget`, and the loop of `with_retry`. Times are numbers of ticks of the clock; the source
-- has floats. The call of the provider, `asyncio.sleep` and `random.uniform` are parameters: a call
-- or a sleep may change the shared budget and the time in any way, as other tasks do meanwhile.
pub mod Window
pub mod Loop
use merge_mate.Base.{
  ℕ, zero, suc, ◌+◌, ◌-◌, ◌*◌, String, Bool, true, false, ◌&&◌, ◌||◌, not, Option, none, some, List,
  [], ◌∷◌, ◌++◌, if◌then◌else◌, ltb, leb, ◌==◌, length,
}
use Prim.Native.Nat.{◌^◌, min}

-- The header Retry-After of a response, as `float` and `parsedate_to_datetime` read it.
pub data RetryAfter : Type 0 where
  absent below_zero unreadable : RetryAfter
  seconds date : ℕ → RetryAfter

-- The exceptions that `_is_retryable` tells apart. `transport_error` is a connection error, a
-- timeout or another TransportError of httpx; `other` is any exception that is none of these.
pub data Failure : Type 0 where
  cancelled transport_error os_error other : Failure
  provider_response all_providers_failed : String → Failure
  http_status : ℕ → RetryAfter → Failure

-- `_is_retryable`
unfoldable pub is_retryable : Failure → Bool
is_retryable cancelled = false
is_retryable (provider_response _) = false
is_retryable (all_providers_failed _) = false
is_retryable (http_status code _) = code == 429 || leb 500 code
is_retryable transport_error = true
is_retryable os_error = true
is_retryable other = false

-- `_is_rate_limit`
unfoldable pub is_rate_limit : Failure → Bool
is_rate_limit (http_status code _) = code == 429
is_rate_limit _ = false

abbrev pub read_header : ℕ → RetryAfter → Option ℕ
read_header now absent = none
read_header now below_zero = some 0
read_header now unreadable = none
read_header now (seconds n) = some n
read_header now (date at) = some (at - now)

-- `_extract_retry_after`; a date in the past gives 0, as `-` stops there.
unfoldable pub extract_retry_after : ℕ → Failure → Option ℕ
extract_retry_after now (http_status _ header) = read_header now header
extract_retry_after now _ = none

-- `RetryConfig`, the part that the gateway reads.
pub record RetryConfig : Type 0 where
  pub max_retries : ℕ
  pub base_delay : ℕ
  pub max_delay : ℕ
  pub budget_window : ℕ
  pub budget_max_retries : ℕ

-- `_RetryBudget`: the length of its window, how many retries it allows there, and their timestamps.
pub record RetryBudget : Type 0 where
  pub window : ℕ
  pub allowed : ℕ
  pub timestamps : List ℕ

-- The budget `_budget` that all callers share, none before the first call; the reading of `time.monotonic`, and the number of the
-- provider's calls so far, which the code does not keep.
pub record Net : Type 0 where
  pub budget : Option RetryBudget
  pub now : ℕ
  pub calls : ℕ

-- `_sweep`: an entry is dropped if it is older than the window, `entry < now - window`.
unfoldable pub sweep : ℕ → ℕ → List ℕ → List ℕ
sweep window now [] = []
sweep window now (t ∷ ts) =
    let rest = sweep window now ts in if ltb (t + window) now then rest else t ∷ ts

-- `can_retry`, which sweeps first.
unfoldable pub can_retry : ℕ → RetryBudget → Bool × RetryBudget
can_retry now b =
    let kept = sweep b.window now b.timestamps in
    (ltb (length kept) b.allowed, record b { timestamps = kept })

-- `record`
unfoldable pub record_retry : ℕ → RetryBudget → RetryBudget
record_retry now b = record b { timestamps = b.timestamps ++ now ∷ [] }

abbrev pub new_budget : RetryConfig → RetryBudget
new_budget cfg = record {
  window = cfg.budget_window;
  allowed = cfg.budget_max_retries;
  timestamps = [];
}

abbrev pub or_new : RetryConfig → Option RetryBudget → RetryBudget
or_new cfg none = new_budget cfg
or_new cfg (some b) = b

-- The budget that a call with this policy uses: the shared one, whose limits are those of the policy
-- of the first call. No caller gives a `_budget_override`.
abbrev pub budget_of : RetryConfig → Net → RetryBudget
budget_of cfg n = or_new cfg n.budget

-- `_get_budget`, which makes the shared budget on the first call.
unfoldable pub get_budget : RetryConfig → Net → Net
get_budget cfg n = record n { budget = some (budget_of cfg n) }

-- The cap of `_full_jitter_delay`.
unfoldable pub delay_cap : RetryConfig → ℕ → ℕ
delay_cap cfg attempt = min cfg.max_delay (cfg.base_delay * 2 ^ attempt)

pub data Reply : Type 0 where
  text : String → Reply
  failed : Failure → Reply

-- What is not in the source: the provider's client, sleeping, and `random.uniform(0, cap)`; and
-- `utc` is the reading of `datetime.now` by which a date in Retry-After is read.
pub record Outside : Type 0 where
  pub call : Net → Reply × Net
  pub sleep : ℕ → Net → Net
  pub uniform : ℕ → Net → ℕ
  pub utc : Net → ℕ

pub data Verdict : Type 0 where
  stop : Failure → Net → Verdict
  again : Net → Verdict

pub data Result : Type 0 where
  returned : String → Result
  raised : Failure → Result
  unreachable : Result

pub data Round : Type 0 where
  finished : Result → Net → Round
  next : Net → Round

abbrev pub verdict_round : Verdict → Round
verdict_round (stop e n) = finished (raised e) n
verdict_round (again n) = next n

module _ (o : Outside) (cfg : RetryConfig) where
  unfoldable pub invoke : Net → Reply × Net
  invoke n = let (r, n') = o.call n in (r, record n' { calls = n.calls + 1 })

  unfoldable pub pause : ℕ → Net → Net
  pause d n = record (o.sleep d n) { calls = n.calls }

  -- The part of the loop behind the budget's check.
  unfoldable pub spend : ℕ → Net → Verdict
  unfolding pause can_retry record_retry delay_cap
  spend attempt n =
      let (open_budget, b) = can_retry n.now (budget_of cfg n) in
      let n' = record n { budget = some b } in
      let kept = record n { budget = some (record_retry n.now b) } in
      if open_budget
      then again (pause (o.uniform (delay_cap cfg attempt) kept) kept)
      else stop (all_providers_failed "Retry budget exhausted — circuit breaker open") n'

  -- The `except` block of the loop, for the failure of the `attempt`-th call.
  unfoldable pub after_failure : ℕ → Failure → Net → Verdict
  unfolding spend pause is_retryable is_rate_limit extract_retry_after
  after_failure attempt e n =
      if not (is_retryable e)
      then stop e n
      else if leb cfg.max_retries attempt
      then stop (all_providers_failed "All retry attempts exhausted.") n
      else if is_rate_limit e
      then elim (extract_retry_after (o.utc n) e) [
        | some d ↦ again (pause d n)
        | none ↦ spend attempt n
      ]
      else spend attempt n

  unfoldable pub round_of : ℕ → Net → Reply → Round
  unfolding after_failure
  round_of attempt n (text t) = finished (returned t) n
  round_of attempt n (failed e) = verdict_round (after_failure attempt e n)

  -- The body of the loop.
  unfoldable pub round : ℕ → Net → Round
  unfolding invoke round_of
  round attempt n = let (reply, n') = invoke n in round_of attempt n' reply

  -- `for attempt in range(max_retries + 1)`, by recursion on the attempts that are left.
  unfoldable pub retry_loop : ℕ → ℕ → Net → Result × Net
  retry_loop zero attempt n = (unreachable, n)
  retry_loop (suc left) attempt n = elim (round attempt n) [
    | finished r n' ↦ (r, n')
    | next n' ↦ retry_loop left (attempt + 1) n'
  ]

  unfoldable pub with_retry : Net → Result × Net
  unfolding retry_loop round get_budget
  with_retry n = retry_loop (suc cfg.max_retries) 0 (get_budget cfg n)
