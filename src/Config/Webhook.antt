-- ===== src/Config/Webhook.antt =====
-- src/mergemate/config/models.py: TelegramConfig and its validation, and what AppConfig resolves for the
-- bot. `urlparse`, `os.getenv`, and the stripping and lowering of a host are parameters.
use merge_mate.Base.{
  ℕ, String, Bool, false, not, ◌&&◌, ◌||◌, Option, none, some, List, [], ◌∷◌, ◌++◌, ◌⊎◌, inl, inr,
  if◌then◌else◌, ◌==◌, str_eq, elem, text_append,
}
use merge_mate.Base.Chars.{CodePoints, rstrip_of}

-- The parts of `urlparse` that the validation reads.
pub record ParseResult : Type 0 where
  pub scheme : String
  pub netloc : String
  pub query : String
  pub fragment : String
  pub hostname : Option String

pub record TelegramConfig : Type 0 where
  pub bot_token_env : String
  pub webhook_mode : Bool
  pub webhook_listen_host : String
  pub webhook_listen_port : ℕ
  pub webhook_public_base_url : Option CodePoints
  pub webhook_path : CodePoints
  pub webhook_secret_token_env : Option String
  pub webhook_healthcheck_enabled : Bool
  pub webhook_healthcheck_listen_host : String
  pub webhook_healthcheck_listen_port : ℕ
  pub webhook_healthcheck_path : CodePoints

pub record Environment : Type 0 where
  pub urlparse : CodePoints → ParseResult
  pub bare_host : String → String
  pub getenv : String → Option String

-- `_HOST_NORMALIZATION_MAP`
unfoldable pub normalized : String → String
normalized host =
    if str_eq host "localhost"
    then "loopback-hostname"
    else if str_eq host "0.0.0.0"
    then "wildcard-ipv4"
    else if str_eq host "::"
    then "wildcard-ipv6"
    else if str_eq host "127.0.0.1"
    then "loopback-ipv4"
    else if str_eq host "::1"
    then "loopback-ipv6"
    else host

abbrev pub wildcard_hosts : List String
wildcard_hosts = "wildcard-ipv4" ∷ "wildcard-ipv6" ∷ []

abbrev pub loopback_hosts : List String
loopback_hosts = "loopback-hostname" ∷ "loopback-ipv4" ∷ "loopback-ipv6" ∷ []

-- What the validation raises.
pub data UrlFault : Type 0 where
  not_absolute has_query no_slash path_query : UrlFault
  no_base_url not_https no_secret_env listeners_conflict : UrlFault

-- `_validate_absolute_url`
unfoldable pub validate_absolute_url : Bool → ParseResult → Option UrlFault
validate_absolute_url allow_query u =
    if str_eq u.scheme "" || str_eq u.netloc ""
    then some not_absolute
    else if not allow_query && (not (str_eq u.query "") || not (str_eq u.fragment ""))
    then some has_query
    else none

-- `_validate_path`
abbrev pub starts_with_slash : CodePoints → Bool
starts_with_slash [] = false
starts_with_slash (c ∷ t) = c == 47

unfoldable pub has_mark : CodePoints → Bool
has_mark [] = false
has_mark (c ∷ t) = c == 63 || (c == 35 || has_mark t)

unfoldable pub validate_path : CodePoints → Option UrlFault
unfolding has_mark
validate_path path =
    if not (starts_with_slash path)
    then some no_slash
    else if has_mark path
    then some path_query
    else none

-- The first fault of two checks.
abbrev pub and_then : Option UrlFault → Option UrlFault → Option UrlFault
and_then (some f) next = some f
and_then none next = next

abbrev pub is_set : Option String → Bool
is_set none = false
is_set (some t) = not (str_eq t "")

module _ (env : Environment) where
  -- `_normalize_listener_host`
  unfoldable pub normalize_listener_host : String → String
  unfolding normalized
  normalize_listener_host host = normalized (env.bare_host host)

  -- `_hosts_may_conflict`
  unfoldable pub hosts_may_conflict : String → String → Bool
  hosts_may_conflict first second =
      let a = normalize_listener_host first in
      let b = normalize_listener_host second in
      str_eq a b
      || (elem a wildcard_hosts
          || (elem b wildcard_hosts || (elem a loopback_hosts && elem b loopback_hosts)))

  abbrev pub is_loopback : Option String → Bool
  is_loopback none = false
  is_loopback (some host) = elem (normalize_listener_host host) loopback_hosts

  -- The checks of the base URL.
  unfoldable pub validate_base_url : ParseResult → Option UrlFault
  unfolding validate_absolute_url
  validate_base_url u = and_then (validate_absolute_url false u) (
      if not (str_eq u.scheme "https") && not (str_eq u.scheme "http" && is_loopback u.hostname)
      then some not_https
      else none)

  abbrev pub validate_base : Option CodePoints → Option UrlFault
  validate_base none = some no_base_url
  validate_base (some []) = some no_base_url
  validate_base (some (c ∷ t)) = validate_base_url (env.urlparse (c ∷ t))

  unfoldable pub validate_listeners : TelegramConfig → Option UrlFault
  validate_listeners t =
      if t.webhook_healthcheck_enabled
        && (t.webhook_listen_port == t.webhook_healthcheck_listen_port
            && hosts_may_conflict t.webhook_listen_host t.webhook_healthcheck_listen_host)
      then some listeners_conflict
      else none

  unfoldable pub validate_webhook : TelegramConfig → Option UrlFault
  unfolding validate_base_url validate_listeners
  validate_webhook t =
      and_then (validate_base t.webhook_public_base_url) (
        if not (is_set t.webhook_secret_token_env)
        then some no_secret_env
        else validate_listeners t)

  -- `validate_webhook_settings`
  unfoldable pub validate_webhook_settings : TelegramConfig → Option UrlFault
  unfolding validate_path validate_webhook
  validate_webhook_settings t = and_then (validate_path t.webhook_path) (
      and_then (validate_path t.webhook_healthcheck_path)
        (if t.webhook_mode then validate_webhook t else none))

  -- `resolve_telegram_token`, `resolve_telegram_webhook_url` and `resolve_telegram_webhook_secret_token`;
  -- the right side is the text of their ValueError.
  abbrev pub env_value : String → Option String → String ⊎ String
  env_value fault none = inr fault
  env_value fault (some token) = if str_eq token "" then inr fault else inl token

  unfoldable pub resolve_telegram_token : TelegramConfig → String ⊎ String
  resolve_telegram_token t =
      env_value
        (text_append "Telegram bot token not found in environment variable " t.bot_token_env)
        (env.getenv t.bot_token_env)

  abbrev pub is_slash : ℕ → Bool
  is_slash c = c == 47

  abbrev pub url_of : CodePoints → Option CodePoints → CodePoints ⊎ String
  url_of path none = inr "Telegram webhook public base URL must be configured when mode is webhook"
  url_of path (some []) =
      inr "Telegram webhook public base URL must be configured when mode is webhook"
  url_of path (some (c ∷ t)) = inl (rstrip_of is_slash (c ∷ t) ++ path)

  unfoldable pub resolve_telegram_webhook_url : TelegramConfig → CodePoints ⊎ String
  resolve_telegram_webhook_url t = url_of t.webhook_path t.webhook_public_base_url

  abbrev pub some_left : String ⊎ String → Option String ⊎ String
  some_left (inl token) = inl (some token)
  some_left (inr fault) = inr fault

  abbrev pub secret_of : Option String → Option String ⊎ String
  secret_of none = inl none
  secret_of (some name) = some_left (
      env_value
        (text_append "Telegram webhook secret token not found in environment variable " name)
        (env.getenv name))

  unfoldable pub resolve_telegram_webhook_secret_token : TelegramConfig → Option String ⊎ String
  resolve_telegram_webhook_secret_token t = secret_of t.webhook_secret_token_env
