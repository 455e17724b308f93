-- ===== src/Lib.antt =====
-- MergeMate: a chat-driven coding agent. A user's message becomes a run, a row of the table
-- agent_runs; a background worker plans it, the user confirms or cancels it, and the worker executes
-- it in stages. This library models the parts that decide what happens to a run, and proves what
-- holds of them when the parts interleave.
--
-- The parts, and where each is modelled (paths from the root of the
-- repository; those that do not begin with src/ are below src/mergemate):
--   Domain/Status, Domain/Runs: src/mergemate/domain/shared/value_objects.py and domain/runs, the
--     statuses and stages with their texts, and the records AgentRun and RunJob.
--   Domain/Workflows: domain/workflows/stage.py, registry.py and domain/policies. Its child Plans is
--     `build_execution_plan` of application/services/workflow_service.py.
--   Persistence/RunRepository and Persistence/JobRepository: the classes SQLiteRunRepository and
--     SQLiteRunJobRepository of infrastructure/persistence/sqlite_repositories.py. A table is the list
--     of its rows in the order of insertion, and a statement is one step on it, with its WHERE clause
--     as a test of the row. The children hold the proofs: Writes, Frame and Reads for the runs; Leases,
--     Exclusion, Endings, Active, Ensure and Steps for the jobs.
--   Persistence/Conversations, ToolEvents, Learnings and Knowledge: the other repositories of that
--     file, whose reads of the newest rows are in Recent. Persistence/Search: the search of the runs,
--     and Persistence/Fts: `fts_quote` and `build_fts_query` of sqlite_common.py beside it.
--     Persistence/MessageSearch: the search of the messages.
--   Persistence/Schema: the tables and columns of `initialize_sqlite_database` in infrastructure/
--     persistence/sqlite_schema.py as a list of statements with their errors; what one statement does in
--     Steps, what the statements read in Supports, that they succeed in Progress, and all of them in
--     Migrations. Triggers: what the
--     full-text tables hold.
--   Domain/Souls: domain/agents/soul.py, the roles and what they may write and read.
--   Queue: infrastructure/queue/local_queue.py, with lemmas on its lists in Members.
--   World and World/Effects: the shared state and the actions on it. An action is a function of the
--     world to an outcome, a value or an exception, and a world; what was written before an exception
--     stays. Code that the source awaits is an arbitrary action, which may bring back a world that
--     other tasks have changed.
--   Application/Submission: application/use_cases/submit_prompt.py and jobs/dispatcher.py, with
--     `revise_plan_for_chat`, `approve` and use_cases/cancel_run.py in Confirmation. Guards,
--     Dispatch, Races and Planning hold the proofs.
--   Application/Handlers: domain/workflows/handlers.py. Application/Delivery: the execution plans of
--     application/execution_plan.py, with their final text in Application/FinalResult and the
--     proofs in Passes and Endings. Application/Orchestrator: `process_run` of application/
--     orchestrator.py, proofs in Starts.
--   Application/Worker: application/jobs/worker.py, with proofs in Containment, Shutdown and Intake;
--     the heartbeat of a claimed job, between claims of others, in Heartbeats.
--   Application/Documents: application/services/documentation_service.py; slugs and summaries of plans
--     in Titles, proofs in Names, Fresh and Saves.
--   Application/Tools: application/services/tool_service.py, the execution of a tool, proofs in
--     Transitions, and the context that the tools give in Contexts.
--   Application/Stages: application/services/workflow_service.py, the agent of a stage and the workers
--     that run in parallel; its prompts in the child Prompts, proofs in Workers and Lessons.
--   Application/Planning, Prompts and Learning: planning_service.py, prompt_service.py and
--     learning_service.py of application/services. Application/RunStatus: application/use_cases/
--     get_run_status.py. Application/Validation: domain/workflows/validation.py.
--   Gateway/Retry: `with_retry` of infrastructure/llm/gateway.py and the one retry budget that all calls
--     share, proofs in Loop and Window. Gateway/Parallel: its class ParallelLLMGateway, proofs in
--     Outcomes and Providers.
--   Config: the agents and roles of config/models.py, their validation and the choices that read them;
--     proofs in Choices and Validity. Config/Webhook: its TelegramConfig, with the validation of the
--     webhook and of its health check and the secrets of the bot; proofs in Listeners.
--   Telegram: of interfaces/telegram, message_utils.py in Messages, the watcher of
--     progress_notifier.py in Watcher and the registry of the watchers in Watchers (proofs in Tasks and
--     Tracked), of handlers.py /status and /tools in Commands, /approve and /cancel in Approval, and
--     `handle_prompt` in Prompting; presenter.py in Presenter and lifecycle_notifier.py in Lifecycle.
--   Tooling: infrastructure/tools, with builtin/package_installer.py in Installer, builtin/
--     source_control.py in SourceControl, and the programs that they start in Processes. Registry:
--     registry.py, and of tool_service.py the repository contexts, the logins and the installation of
--     packages. Health: the readiness of interfaces/telegram/health.py.
--   Cli: cli.py. Shell: the commands as actions that print and may exit; Sessions and Ages: its
--     helpers; Polls: `_poll_run`, proofs in Waits; Probes: `probe_readiness`, proofs in Ends; Searches
--     and Prints: what is printed; Commands: the commands of one step; Runs: run, chat and resume,
--     proofs in History.
--   Bootstrap: the loading of workflow plugins of bootstrap.py.
--   Base: what the modules share. Samples: concrete data, and one application of each result.
--
-- Bounds: the loop of `with_retry` and the loop over the iterations of a plan recur on the number of
-- passes that is left; they start with max_retries + 1 and max_iterations, which is the length of the
-- ranges in the source, so no pass is lost. Times and counts are natural numbers without a bound, as
-- Python's integers; a subtraction that may go below zero in the source is written out.
--
-- The loops of `watch_run_progress`, `_poll_run` and `probe_readiness`, which may poll for ever, recur on
-- a number of polls and say whether they have returned within it; `split_telegram_message` recurs on
-- the length of its text and one more, as every part takes at least one code point. The search for a
-- free name of a document recurs on one more than the number of the documents that are there, one of
-- which each failing name takes.
--
-- Not modelled: the floating point heuristics of the duration estimator, the HTTP of the provider
-- adapters, the code formatter and the syntax checker, the regular expression of `extract_tasks`, the
-- paths of the configuration, the reading of settings and the wiring of objects in bootstrap.py and
-- bot.py, the connections of SQLite and the types and defaults of its columns, and telemetry. Where the modelled code calls them they are
-- parameters, as are functions of Python's library on texts and URLs: Setup, Services, Dependencies,
-- Worker, ToolSetup, Outside, Request, Engine, Watch, Chat, Talk, Incoming, Digits, LearningService,
-- PromptService, Unicode, ParseResult, Environment, Runner, Shell, Probing, Printer and others.
-- Concurrent calls are run one after the other, in an order that is a parameter where it matters, and
-- each may change the shared state in any way; a race between the test that a document's name is free
-- and its writing, and a start of a watcher while a stop waits for the others, are left out. Times are
-- whole units of the clock. Errors of sqlite3 other than a violated constraint are left out, but in
-- Persistence/Schema, where a column or a table may be missing; a name is not that of a table and of an
-- index there.
pub mod Base
pub mod Domain
pub mod Persistence
pub mod Queue
pub mod World
pub mod Application
pub mod Gateway
pub mod Config
pub mod Telegram
pub mod Bootstrap
pub mod Cli
pub mod Tooling
pub mod Samples
