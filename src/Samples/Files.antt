-- ===== src/Samples/Files.antt =====
-- The theorems on the documents, the configuration of the bot, the schema and the tools.
use merge_mate.Base.{
  ℕ, String, true, false, Option, none, some, [], ◌∷◌, ◌++◌, ◌≡◌, refl, if◌then◌else◌, str_eq, elem,
}
use merge_mate.Base.Chars.{CodePoints, codes}
use merge_mate.World.{Error, value_error}
use merge_mate.Application.Documents.Titles.{Unicode, slugify}
use merge_mate.Application.Documents.Names.{IsSlug, slugify-IsSlug}
use merge_mate.Application.Documents.{
  Document, Docs, write_architecture_design, write_test_plan, write_review_report, write_lesson,
  write_requirement,
}
use merge_mate.Application.Documents.Saves.{IsSaved, write-IsSaved}
use merge_mate.Config.{get_entry}
use merge_mate.Config.Webhook.{
  TelegramConfig, Environment, validate_webhook_settings, validate_path, has_mark, validate_webhook,
  validate_base_url,
}
use merge_mate.Config.Listeners.{IsServed, validate_webhook_settings-IsServed}
use merge_mate.Persistence.Schema.{
  Database, initialize, execute, table_exists, has_column, distinct,
}
use merge_mate.Persistence.Schema.Supports.{is_upgradable, has_base}
use merge_mate.Persistence.Schema.Migrations.{IsMigrated, initialize-IsMigrated}
use merge_mate.Persistence.Schema.Triggers
use merge_mate.Persistence.Schema.Triggers.{
  Indexed, IsMirrored, IsReached-IsMirrored, insert_row, ensure_index,
}
use merge_mate.Tooling.Processes.{exited, Machine, Runner}
use merge_mate.Tooling.Installer.{
  PackageInstaller, invoke_installer, may_install, pip_command, invoke_installer-commands,
}
use merge_mate.Tooling.Health.{
  HealthPayload, mark_ready, starting, reply_of, resolve_status, probe-resolve_status,
}
use merge_mate.Cli.Shell.{returned}
use merge_mate.Cli.Probes.{Probe, probe_readiness_once}

abbrev unicode : Unicode
unicode = record { lower = λ t. t; is_digit = λ c. false; ascii_lower = λ t. t }

slugify-IsSlug_example : IsSlug (slugify unicode (codes "add  a /../ test"))
slugify-IsSlug_example = slugify-IsSlug unicode (codes "add  a /../ test")

abbrev old_file : Document
old_file = record { section = "architecture"; name = codes "add-a-test.md"; content = [] }

abbrev docs : Docs
docs = record { dirs = "architecture" ∷ []; files = old_file ∷ [] }

abbrev plan : CodePoints
plan = codes "# Add a test"

write-IsSaved_example :
    IsSaved "architecture" "architecture"
      (some "reviewer")
      docs
      (write_architecture_design unicode (codes "a") 1 plan [] (some "reviewer") docs)
    × IsSaved "testing" "testing"
        (some "reviewer")
        docs
        (write_test_plan unicode (codes "a") 1 plan [] [] (some "reviewer") docs)
    × IsSaved "review" "reviews"
        (some "reviewer")
        docs
        (write_review_report unicode (codes "a") 1 plan [] [] [] [] (some "reviewer") docs)
    × IsSaved "lessons" "lessons"
        (some "reviewer")
        docs
        (write_lesson unicode (codes "a") 1 plan [] (some "reviewer") docs)
    × IsSaved "requirements" "requirements"
        (some "reviewer")
        docs
        (write_requirement unicode (codes "a") 1 plan [] (some "reviewer") docs)
write-IsSaved_example =
    write-IsSaved unicode (codes "a") 1 plan [] [] [] [] [] [] (some "reviewer") docs

abbrev environment : Environment
environment = record {
  urlparse = λ t. record {
    scheme = "https";
    netloc = "bot.example";
    query = "";
    fragment = "";
    hostname = some "bot.example";
  };
  bare_host = λ h. h;
  getenv = λ n. some "secret";
}

abbrev telegram : TelegramConfig
telegram = record {
  bot_token_env = "TOKEN";
  webhook_mode = true;
  webhook_listen_host = "0.0.0.0";
  webhook_listen_port = 8080;
  webhook_public_base_url = some (codes "https://bot.example/");
  webhook_path = codes "/telegram/webhook";
  webhook_secret_token_env = some "SECRET";
  webhook_healthcheck_enabled = true;
  webhook_healthcheck_listen_host = "127.0.0.1";
  webhook_healthcheck_listen_port = 8081;
  webhook_healthcheck_path = codes "/healthz";
}

telegram_accepted : validate_webhook_settings environment telegram ≡ none
unfolding validate_webhook_settings validate_path has_mark validate_webhook validate_base_url
telegram_accepted = refl

validate_webhook_settings-IsServed_example : IsServed environment telegram
validate_webhook_settings-IsServed_example =
    validate_webhook_settings-IsServed environment telegram refl telegram_accepted

-- A database of a first version: no plans, no indexes, and one active job.
abbrev old_database : Database
old_database = record {
  tables =
      (
        "agent_runs",
        "run_id" ∷ "chat_id" ∷ "agent_name" ∷ "workflow" ∷ "status" ∷ "prompt" ∷ "result_text"
            ∷ "error_text" ∷ "created_at" ∷ [],
      )
      ∷ ("conversation_messages", "chat_id" ∷ "content" ∷ "created_at" ∷ [])
      ∷ ("run_jobs", "run_id" ∷ "job_type" ∷ "status" ∷ "queued_at" ∷ [])
      ∷ [];
  indexes = [];
  triggers = [];
  active_jobs = ("a", "plan_run") ∷ [];
}

old_database-upgradable : is_upgradable old_database ≡ true
unfolding has_base table_exists has_column get_entry elem distinct
old_database-upgradable = refl

initialize-IsMigrated_example :
    ((initialize old_database).0 ≡ true) × IsMigrated old_database (initialize old_database).1
initialize-IsMigrated_example = initialize-IsMigrated old_database old_database-upgradable

-- Without the columns of an index the initialization raises.
abbrev oldest_database : Database
oldest_database = record old_database { tables = ("agent_runs", "run_id" ∷ "prompt" ∷ []) ∷ [] }

oldest_database-fails : (initialize oldest_database).0 ≡ false
unfolding initialize execute has_column table_exists get_entry elem
oldest_database-fails = refl

abbrev text_itself : String → String
text_itself t = t

abbrev base_table : Indexed String
base_table = record { rows = (1, "one") ∷ []; index = none }

IsReached-IsMirrored_example :
    IsMirrored text_itself (insert_row text_itself 2 "two" (ensure_index text_itself base_table))
IsReached-IsMirrored_example =
    IsReached-IsMirrored text_itself base_table
      (insert_row text_itself 2 "two" (ensure_index text_itself base_table)) refl
      (Triggers.then_statement Triggers.indexed
        (Triggers.inserts (ensure_index text_itself base_table) 2 "two"))

abbrev installer : PackageInstaller
installer = record {
  allow_package_install = true;
  allowed_packages = "ruff" ∷ [];
  pip_executable = "python3";
  timeout_text = "300";
}

abbrev runner : Runner ℕ
runner command n = (exited true "done" "", n)

abbrev machine : Machine ℕ
machine = record { commands = []; outside = 0 }

invoke_installer-commands_example :
    (invoke_installer installer runner "ruff" machine).1.commands
    ≡ (if may_install installer runner "ruff" then [] ++ pip_command installer "ruff" ∷ [] else [])
invoke_installer-commands_example = invoke_installer-commands installer runner "ruff" machine

abbrev dumped : HealthPayload → String
dumped p = p.status

abbrev decoded : String → Option (Option String)
decoded t = some (some t)

abbrev broken_json : Error
broken_json = record { kind = value_error; text = "" }

probe-resolve_status_example :
    (p : Probe) × (probe_readiness_once decoded broken_json
        (reply_of dumped (resolve_status "/healthz" "/healthz" (mark_ready starting)))
      ≡ returned p)
    × (p.is_ready ≡ str_eq "ready" "ready")
    × (p.status ≡ some "ready")
probe-resolve_status_example =
    probe-resolve_status dumped decoded broken_json "/healthz" (mark_ready starting) (λ p. refl)
