-- ===== src/Gateway/Parallel.antt =====
-- src/mergemate/infrastructure/llm/gateway.py, `ParallelLLMGateway`: which providers an agent's call
-- goes to, and what comes of their answers. Every provider's call is `with_retry` of
-- Gateway/Retry.antt; how the calls of one request interleave is in the states they start in and
-- in the order in which they complete, which are parameters.
pub mod Outcomes
pub mod Providers
use merge_mate.Base.{
  String, Bool, true, false, not, ◌&&◌, ◌||◌, Option, none, some, List, [], ◌∷◌, ◌++◌, map, str_eq,
  select, text_append, ◌⊎◌, inl, inr,
}
use merge_mate.Base.Texts.{unique, join}
use merge_mate.Config.{
  AppConfig, AgentConfig, ParallelMode, single, parallel, CombineStrategy, sectioned, first_success,
  get_entry, resolve_agent_provider_names,
}
use merge_mate.Gateway.Retry.{
  Failure, cancelled, all_providers_failed, RetryConfig, Net, Outside, Result, returned, raised,
  unreachable, with_retry,
}

-- What a request meets: which providers have a client, each provider's retry policy
-- (`_resolve_provider_retry_config`) and client, the state that its call starts in, and the order in
-- which the tasks of `asyncio.as_completed` complete; and `str(exception)` and `str.strip`.
pub record Request : Type 0 where
  pub has_client : String → Bool
  pub retry_config : String → RetryConfig
  pub client : String → Outside
  pub start : String → Net
  pub completed : List String → List String
  pub error_text : Failure → String
  pub strip : String → String

abbrev pub mode_of : Option AgentConfig → ParallelMode
mode_of none = single
mode_of (some a) = a.parallel_mode

abbrev pub strategy_of : Option AgentConfig → CombineStrategy
strategy_of none = sectioned
strategy_of (some a) = a.combine_strategy

-- `", ".join(names) if names else "none"`
abbrev or_text : List String → String
or_text [] = "none"
or_text (n ∷ ns) = join ", " (n ∷ ns)

module _ (c : AppConfig) (q : Request) where
  -- `_resolve_provider_names`
  unfoldable pub provider_names : String → List String
  provider_names agent = unique (resolve_agent_provider_names c agent)

  unfoldable pub available_names : String → List String
  unfolding provider_names
  available_names agent = select q.has_client (provider_names agent)

  unfoldable pub missing_names : String → List String
  unfolding provider_names
  missing_names agent = select (λ n. not (q.has_client n)) (provider_names agent)

  -- `_generate_from_provider`
  unfoldable pub from_provider : String → Result
  from_provider name = (with_retry (q.client name) (q.retry_config name) (q.start name)).0

  abbrev detail : Result → String
  detail (returned t) = ""
  detail (raised e) = q.error_text e
  detail unreachable = "unreachable: loop always raises or returns"

  abbrev section_of : String → Result → List (String × String)
  section_of name (returned t) = (name, t) ∷ []
  section_of name _ = []

  abbrev failure_of : String → Result → List (String × String)
  failure_of name (returned t) = []
  failure_of name r = (name, detail r) ∷ []

  -- The results of `asyncio.gather(…, return_exceptions=True)`, sorted into two lists.
  unfoldable pub successful_results : List String → List (String × String)
  successful_results [] = []
  successful_results (n ∷ ns) = section_of n (from_provider n) ++ successful_results ns

  unfoldable pub failures : List String → List (String × String)
  failures [] = []
  failures (n ∷ ns) = failure_of n (from_provider n) ++ failures ns

  unfoldable failure_text : List (String × String) → String
  failure_text fs = join "; " (map (λ p. text_append p.0 (text_append ": " p.1)) fs)

  unfoldable pub all_failed : List (String × String) → Result
  unfolding failure_text
  all_failed fs =
      raised
        (all_providers_failed (text_append "All parallel model calls failed. " (failure_text fs)))

  unfoldable failed_section : List (String × String) → List String
  failed_section [] = []
  failed_section (f ∷ fs) =
      text_append "## failed_models\n"
        (join "\n" (map (λ p. text_append "- " (text_append p.0 (text_append ": " p.1))) (f ∷ fs)))
      ∷ []

  -- `_format_sectioned_results`
  unfoldable pub format_sectioned_results : List (String × String) → List (String × String) → String
  unfolding failed_section
  format_sectioned_results done failed = join "\n\n" (
      map (λ p. text_append "## " (text_append p.0 (text_append "\n" (q.strip p.1)))) done
      ++ failed_section failed)

  abbrev pub gathered : List (String × String) → List (String × String) → Result
  gathered [] failed = all_failed failed
  gathered (d ∷ ds) failed = returned (format_sectioned_results (d ∷ ds) failed)

  -- What a completed task does to the loop: it ends it, or leaves the text of its failure. A task
  -- that is cancelled raises where it is awaited, as CancelledError is no Exception.
  abbrev pub settled : Result → Result ⊎ String
  settled (returned t) = inl (returned t)
  settled (raised cancelled) = inl (raised cancelled)
  settled (raised e) = inr (q.error_text e)
  settled unreachable = inr (detail unreachable)

  -- `_generate_first_success`, on the names in the order in which their tasks complete.
  unfoldable pub first_completed : List (String × String) → List String → Result
  first_completed fs [] = all_failed fs
  first_completed fs (n ∷ ns) = elim (settled (from_provider n)) [
    | inl r ↦ r
    | inr t ↦ first_completed (fs ++ (n, t) ∷ []) ns
  ]

  abbrev no_providers : String → Result
  no_providers agent = raised (
      all_providers_failed (
        text_append "No configured providers are available for agent " (
          text_append agent (
            text_append ". Configured providers: " (
              text_append (join ", " (resolve_agent_provider_names c agent)) (
                text_append ". Missing clients: "
                  (text_append (or_text (missing_names agent)) ".")))))))

  -- The part of `generate` for two providers at least.
  abbrev pub combine : CombineStrategy → List String → Result
  combine first_success names = first_completed [] (q.completed names)
  combine sectioned names = gathered (successful_results names) (failures names)

  abbrev pub dispatch : String → ParallelMode → CombineStrategy → List String → Result
  dispatch agent mode strategy [] = no_providers agent
  dispatch agent single strategy (n ∷ ns) = from_provider n
  dispatch agent parallel strategy (n ∷ []) = from_provider n
  dispatch agent parallel strategy (n ∷ m ∷ ns) = combine strategy (n ∷ m ∷ ns)

  -- `generate`
  unfoldable pub generate : String → Result
  unfolding available_names
  generate agent =
      let a = get_entry agent c.agents in
      dispatch agent (mode_of a) (strategy_of a) (available_names agent)
