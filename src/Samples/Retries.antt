-- ===== src/Samples/Retries.antt =====
-- The theorems on the retries of the gateway, for a provider that always answers.
use merge_mate.Base.{◌+◌, ◌≤◌, ◌<◌, ◌≢◌, some, inl, refl, [], ◌∷◌, arith}
use merge_mate.Gateway.Retry.{
  Net, RetryConfig, Outside, text, failed, transport_error, unreachable, with_retry, RetryBudget,
}
use merge_mate.Gateway.Retry.Loop.{with_retry-IsBounded}
use merge_mate.Gateway.Retry.Window.{KeepsBudget, IsWithin, with_retry-IsWithin}

-- The shared budget, which the first call made by another policy.
abbrev shared : RetryBudget
shared = record { window = 60; allowed = 2; timestamps = 90 ∷ [] }

abbrev net : Net
net = record { budget = some shared; now = 100; calls = 0 }

abbrev config : RetryConfig
config = record {
  max_retries = 3;
  base_delay = 1;
  max_delay = 60;
  budget_window = 60;
  budget_max_retries = 10;
}

abbrev calm : Outside
calm = record { call = λ n. (text "ok", n); sleep = λ d n. n; uniform = λ d n. 0; utc = λ n. 100 }

abbrev refusing : Outside
refusing = record calm { call = λ n. (failed transport_error, n) }

with_retry-IsBounded_example :
    ((with_retry calm config net).0 ≢ unreachable)
    × (0 < (with_retry calm config net).1.calls)
    × ((with_retry calm config net).1.calls ≤ 0 + 3 + 1)
with_retry-IsBounded_example = with_retry-IsBounded calm config net

refusing-KeepsBudget : KeepsBudget refusing shared
refusing-KeepsBudget = record { call_keeps = λ n h. h; sleep_keeps = λ d n h. h }

with_retry-IsWithin_example : IsWithin shared (with_retry refusing config net).1
with_retry-IsWithin_example =
    with_retry-IsWithin refusing config net shared (inl refl) refusing-KeepsBudget (omega arith)
