-- ===== src/Config/Listeners.antt =====
-- What an accepted configuration of the bot promises.
use merge_mate.Base.{
  String, true, false, ◌&&◌, ◌||◌, Option, none, some, [], ◌∷◌, ◌++◌, ◌≡◌, inl, refl, ◌==◌, str_eq,
  eq_iff, eq_refl, arith,
}
use merge_mate.Base.Chars.{CodePoints, rstrip_of}
use merge_mate.Config.Webhook.{
  ParseResult, TelegramConfig, Environment, UrlFault, normalize_listener_host, hosts_may_conflict,
  and_then, is_set, validate_path, starts_with_slash, is_loopback, validate_absolute_url,
  validate_base, validate_base_url, validate_listeners, validate_webhook, validate_webhook_settings,
  is_slash, url_of, resolve_telegram_webhook_url,
}

module _ (env : Environment) where
  -- Two listeners that may conflict may conflict the other way round, and with themselves.
  pub hosts_may_conflict_lem :
      (a b : String)
      → (hosts_may_conflict env a b ≡ hosts_may_conflict env b a)
        × (hosts_may_conflict env a a ≡ true)
  unfolding hosts_may_conflict
  hosts_may_conflict_lem a b =
      let x = normalize_listener_host env a in
      let y = normalize_listener_host env b in
      (ground (arith, eq_iff x y, eq_iff y x), rw (eq_refl x) refl)

  and_then-none :
      (first next : Option UrlFault) → and_then first next ≡ none → (first ≡ none) × (next ≡ none)
  and_then-none none next h = (refl, h)
  and_then-none (some f) next h = cc

  -- The URL under which the bot is reached is there and is safe, its path starts with a slash, and no
  -- two listeners stand in each other's way.
  abbrev pub IsServed : TelegramConfig → Type 0
  IsServed t =
      (base : CodePoints) × (t.webhook_public_base_url ≡ some base)
      × (resolve_telegram_webhook_url env t ≡ inl (rstrip_of (is_slash env) base ++ t.webhook_path))
      × (starts_with_slash t.webhook_path ≡ true)
      × ((str_eq (env.urlparse base).scheme "https"
            || (str_eq (env.urlparse base).scheme "http"
                && is_loopback env (env.urlparse base).hostname))
          ≡ true)
      × (is_set t.webhook_secret_token_env ≡ true)
      × ((t.webhook_healthcheck_enabled
            && (t.webhook_listen_port == t.webhook_healthcheck_listen_port
                && hosts_may_conflict env t.webhook_listen_host t.webhook_healthcheck_listen_host))
          ≡ false)

  validate_path-slash :
      (path : CodePoints) → validate_path path ≡ none → starts_with_slash path ≡ true
  unfolding validate_path
  validate_path-slash path h = ground (arith, h)

  validate_base_url-safe :
      (u : ParseResult)
      → validate_base_url env u ≡ none
      → (str_eq u.scheme "https" || (str_eq u.scheme "http" && is_loopback env u.hostname)) ≡ true
  unfolding validate_base_url
  validate_base_url-safe u h =
      let safe = (and_then-none (validate_absolute_url false u) _ h).1 in ground (arith, safe)

  base-safe :
      (base : Option CodePoints) (path : CodePoints)
      → validate_base env base ≡ none
      → (url : CodePoints) × (base ≡ some url)
        × (url_of env path base ≡ inl (rstrip_of (is_slash env) url ++ path))
        × ((str_eq (env.urlparse url).scheme "https"
              || (str_eq (env.urlparse url).scheme "http"
                  && is_loopback env (env.urlparse url).hostname))
            ≡ true)
  base-safe none path h = cc
  base-safe (some []) path h = cc
  base-safe (some (c ∷ t)) path h =
      (c ∷ t, refl, refl, validate_base_url-safe (env.urlparse (c ∷ t)) h)

  -- If the settings of a bot in webhook mode are accepted, the webhook's URL is there and is the
  -- base URL without its last slashes and the path, which starts with a slash; the scheme is
  -- https, or http to a loopback host; the secret's variable is named; and the health check is
  -- off, has another port, or listens on a host that does not conflict.
  pub validate_webhook_settings-IsServed :
      (t : TelegramConfig)
      → t.webhook_mode ≡ true
      → validate_webhook_settings env t ≡ none
      → IsServed t
  unfolding validate_webhook_settings validate_webhook validate_listeners
      resolve_telegram_webhook_url
  validate_webhook_settings-IsServed t mode h =
      let paths = and_then-none (validate_path t.webhook_path) _ h in
      let checks = (and_then-none (validate_path t.webhook_healthcheck_path) _ paths.1).1 in
      let webhook : validate_webhook env t ≡ none = rw mode at checks in
      let parts = and_then-none (validate_base env t.webhook_public_base_url) _ webhook in
      let (base, found, url, safe) = base-safe t.webhook_public_base_url t.webhook_path parts.0 in
      let others = parts.1 in
      (
        base,
        found,
        url,
        validate_path-slash t.webhook_path paths.0,
        safe,
        ground (arith, others),
        ground (arith, others),
      )
