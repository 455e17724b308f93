-- ===== src/Samples/Providers.antt =====
-- The theorems on requests to several providers, for one provider that fails and one that answers.
use merge_mate.Base.{
  String, true, false, none, [], ◌∷◌, ◌≡◌, refl, ap, str_eq, if◌then◌else◌, Bool-cases, inl, inr,
}
use merge_mate.Config.{get_entry}
use merge_mate.Gateway.Retry.{
  Net, RetryConfig, Outside, Reply, text, failed, other, raised, returned, with_retry, retry_loop,
  round, invoke, round_of, after_failure, is_retryable,
}
use merge_mate.Gateway.Parallel.{Request, from_provider, available_names, generate, first_completed}
use merge_mate.Gateway.Parallel.Outcomes.{is_returned, answers, IsUncancelled, generate-answers}
use merge_mate.Samples.Settings.{settings}

abbrev reply : String → Reply
reply name = if str_eq name "q" then text "answer" else failed other

-- A client that always gives this reply.
abbrev steady : Reply → Outside
steady r = record { call = λ n. (r, n); sleep = λ d n. n; uniform = λ d n. 0; utc = λ n. 100 }

abbrev config : RetryConfig
config = record {
  max_retries = 3;
  base_delay = 1;
  max_delay = 60;
  budget_window = 60;
  budget_max_retries = 10;
}

abbrev net : Net
net = record { budget = none; now = 100; calls = 0 }

abbrev request : Request
request = record {
  has_client = λ n. true;
  retry_config = λ n. config;
  client = λ n. steady (reply n);
  start = λ n. net;
  completed = λ names. names;
  error_text = λ e. "failed";
  strip = λ t. t;
}

answering :
    (n : String) → str_eq n "q" ≡ true → from_provider settings request n ≡ returned "answer"
unfolding from_provider with_retry retry_loop round invoke round_of after_failure is_retryable
answering n e =
    let same : reply n ≡ text "answer" = rw e refl in
    ap (λ (r : Reply). (with_retry (steady r) config net).0) same

failing : (n : String) → str_eq n "q" ≡ false → from_provider settings request n ≡ raised other
unfolding from_provider with_retry retry_loop round invoke round_of after_failure is_retryable
failing n e =
    let same : reply n ≡ failed other = rw e refl in
    ap (λ (r : Reply). (with_retry (steady r) config net).0) same

request-IsUncancelled : IsUncancelled settings request
request-IsUncancelled n h = elim (Bool-cases (str_eq n "q")) [
  | inl e ↦ let a = answering n e in cc (a, h)
  | inr e ↦ let a = failing n e in cc (a, h)
]

generate-answers_example :
    is_returned (generate settings request "coder")
    ≡ answers settings request (available_names settings request "coder")
unfolding get_entry
generate-answers_example =
    generate-answers settings request "coder" refl request-IsUncancelled (λ names n. refl)

first : first_completed settings request [] ("p" ∷ "q" ∷ []) ≡ returned "answer"
unfolding first_completed from_provider with_retry retry_loop round invoke round_of after_failure
    is_retryable
first = refl
