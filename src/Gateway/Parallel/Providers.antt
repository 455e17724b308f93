-- ===== src/Gateway/Parallel/Providers.antt =====
-- Which providers a request goes to, for a configuration that was accepted.
use merge_mate.Base.{
  String, ◌≡◌, refl, ap, ◌∙◌, Bool, true, not, none, List, [], ◌∷◌, str_eq, elem, All, All-select,
  All-mp, select,
}
use merge_mate.Config.{
  AppConfig, or_default, or_names, populate_roles, validate, resolve_agent_provider_names,
}
use merge_mate.Config.Validity.{resolve_agent_provider_names-IsKnown}
use merge_mate.Base.Texts.{unique}
use merge_mate.Gateway.Parallel.{Request, provider_names, available_names, missing_names}

select-All : (p : String → Bool) (xs : List String) → All (λ x. p x ≡ true) xs → select p xs ≡ xs
unfolding select
select-All p [] h = refl
select-All p (x ∷ xs) h = rw (h.0, select-All p xs h.1) refl

select-nothing :
    (p : String → Bool) (xs : List String)
    → All (λ x. p x ≡ true) xs
    → select (λ x. not (p x)) xs ≡ []
unfolding select
select-nothing p [] h = refl
select-nothing p (x ∷ xs) h = rw (h.0, select-nothing p xs h.1) refl

All-unique : (P : String → Type 0) (xs : List String) → All P xs → All P (unique xs)
unfolding unique
All-unique P [] h = tt
All-unique P (x ∷ xs) h =
    (h.0, All-select P (λ y. not (str_eq x y)) (unique xs) (All-unique P xs h.1))

-- The list of an agent's providers has a first element.
abbrev IsCons : List String → Type 0
IsCons xs = (x : String) × (rest : List String) × (xs ≡ x ∷ rest)

or_default-IsCons : (fallback : String) (names : List String) → IsCons (or_default fallback names)
or_default-IsCons fallback [] = (fallback, [], refl)
or_default-IsCons fallback (n ∷ ns) = (n, ns, refl)

or_names-IsCons : (names others : List String) → IsCons others → IsCons (or_names names others)
or_names-IsCons [] others h = h
or_names-IsCons (n ∷ ns) others h = (n, ns, refl)

resolve_agent_provider_names-IsCons :
    (c : AppConfig) (agent : String) → IsCons (resolve_agent_provider_names c agent)
unfolding resolve_agent_provider_names
resolve_agent_provider_names-IsCons c agent =
    or_names-IsCons _ _ (or_default-IsCons c.default_provider _)

unique-IsCons : (xs : List String) → IsCons xs → IsCons (unique xs)
unfolding unique
unique-IsCons xs (x, rest, e) = (x, _, ap unique e)

-- If a configuration without roles of its own is accepted and every configured provider has a
-- client, no provider of any agent is missing and every agent has at least one available provider.
pub provider_names-available :
    (c : AppConfig) (q : Request) (agent : String)
    → c.roles ≡ []
    → validate c ≡ none
    → ((n : String) → elem n c.providers ≡ true → q.has_client n ≡ true)
    → (missing_names (populate_roles c) q agent ≡ [])
      × (x : String) × (rest : List String) × (available_names (populate_roles c) q agent
          ≡ x ∷ rest)
unfolding available_names missing_names provider_names
provider_names-available c q agent empty valid clients =
    let known = resolve_agent_provider_names-IsKnown c agent empty valid in
    let names = resolve_agent_provider_names (populate_roles c) agent in
    let have = All-unique (λ n. q.has_client n ≡ true) names (All-mp _ _ clients names known) in
    let (x, rest, e) =
      unique-IsCons names (resolve_agent_provider_names-IsCons (populate_roles c) agent) in
    (
      select-nothing q.has_client (unique names) have,
      x,
      rest,
      select-All q.has_client (unique names) have ∙ e,
    )
