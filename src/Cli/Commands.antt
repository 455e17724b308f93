-- ===== src/Cli/Commands.antt =====
-- src/mergemate/cli.py: the commands that search, check the configuration, and call a tool. The two search
-- engines, the digest of a session's name and the environment are parameters.
use merge_mate.Base.{
  ℕ, String, Bool, true, false, ◌||◌, Option, none, some, [], ◌∷◌, ◌⊎◌, inl, inr, if◌then◌else◌,
  str_eq, text_append,
}
use merge_mate.Domain.Runs.{ChatId}
use merge_mate.World.{value_error}
use merge_mate.Config.Webhook.{
  TelegramConfig, Environment, resolve_telegram_token, resolve_telegram_webhook_url,
  resolve_telegram_webhook_secret_token,
}
use merge_mate.Persistence.Search.{Engine, search}
use merge_mate.Persistence.MessageSearch.{MessageEngine, search_messages}
use merge_mate.Tooling.Processes.{ToolReply}
use merge_mate.Tooling.Registry.{Context}
use merge_mate.Cli.Shell.{failed_with, Command, pure, exit, echo, echo_to, ◌>>◌}
use merge_mate.Cli.Sessions.{resolve_session_chat_id}
use merge_mate.Cli.Searches.{
  Printer, print_search_results, print_message_search_results, print_combined_search_results,
}

module _ (p : Printer) (digest : String → ℕ) (e : Engine) (m : MessageEngine) where
  -- The chat of a session, if one is named.
  abbrev pub session_chat : Option String → Option ChatId
  session_chat none = none
  session_chat (some name) = some (resolve_session_chat_id digest 0 (some name))

  -- `search_runs`, `search_conversations` and `search`
  unfoldable pub search_runs : String → ℕ → Option String → Command (Unit {0})
  search_runs query limit session s =
      print_search_results p (search e query limit (session_chat session) s.world.runs) s

  unfoldable pub search_conversations : String → ℕ → Option String → Command (Unit {0})
  search_conversations query limit session s =
      print_message_search_results p
        (search_messages m query limit (session_chat session) s.world.messages) s

  unfoldable pub search_all : String → ℕ → Option String → Command (Unit {0})
  search_all query limit session s =
      print_combined_search_results p limit
        (search e query limit (session_chat session) s.world.runs)
        (search_messages m query limit (session_chat session) s.world.messages) s

-- What `install_package`, `platform_auth` and `repo_context` print of a tool's reply.
abbrev pub or_fail : Bool → String → Command (Unit {0})
or_fail true text = echo text
or_fail false text = echo_to true text >> exit 1

unfoldable pub report_install : ToolReply → Command (Unit {0})
report_install r = or_fail (str_eq r.status "installed" || str_eq r.status "blocked") r.detail

unfoldable pub report_platform_auth : ToolReply → Command (Unit {0})
report_platform_auth r = or_fail (str_eq r.status "ok") r.detail

unfoldable pub report_context : Context → Command (Unit {0})
report_context [] = pure tt
report_context ((name, r) ∷ rest) =
    echo (text_append "[" (text_append name (text_append "] " r.status)))
    >> echo r.detail
    >> report_context rest

-- A step of the check of the configuration: its value, or its ValueError.
abbrev pub or_raise {ℓ} : {A : Type ℓ} → A ⊎ String → Option String
or_raise (inl a) = none
or_raise (inr text) = some text

abbrev pub first_fault : Option String → Option String → Option String
first_fault (some text) next = some text
first_fault none next = next

-- `validate_config`, for a configuration that was loaded: the key of the provider and the names of the
-- providers are read and not checked.
unfoldable pub config_fault : Environment → TelegramConfig → Option String
config_fault env t = first_fault (or_raise (resolve_telegram_token env t)) (
    if t.webhook_mode
    then first_fault (or_raise (resolve_telegram_webhook_url env t))
        (or_raise (resolve_telegram_webhook_secret_token env t))
    else none)

abbrev pub report_config : Option String → String → String → Command (Unit {0})
report_config (some text) path database s =
    (failed_with (record { kind = value_error; text = text }), s)
report_config none path database s =
    (echo (text_append "Configuration is valid: " path)
        >> echo (text_append "Resolved database path: " database))
      s

unfoldable pub validate_config : Environment → TelegramConfig → String → String → Command (Unit {0})
unfolding config_fault
validate_config env t path database = report_config (config_fault env t) path database
