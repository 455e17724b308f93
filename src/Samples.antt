-- ===== src/Samples.antt =====
-- Concrete runs, jobs and settings, on which the theorems are applied.
pub mod Execution
pub mod Jobs
pub mod Requests
pub mod Runs
pub mod Retries
pub mod Settings
pub mod Providers
pub mod Memories
pub mod Searches
pub mod Chats
pub mod Files
pub mod Consoles
use merge_mate.Base.{
  ℕ, zero, suc, String, Bool, true, false, Option, none, some, List, [], ◌∷◌, ◌≡◌, refl, find,
}
use merge_mate.Domain.Status.{
  RunStatus, RunJobStatus, RunJobType, awaiting_confirmation, queued, completed, plan_run,
  execute_run,
}
use merge_mate.Domain.Runs.{AgentRun, RunJob, ChatId, positive}
use merge_mate.Domain.Workflows.{builtin_registry}
use merge_mate.Persistence.RunRepository.{Table, get}
use merge_mate.Persistence.RunRepository.Writes.{IsRunTable}
use merge_mate.Queue.{empty_queue}
use merge_mate.World.{World, Action, pure}
use merge_mate.Application.Submission.{Setup}
use merge_mate.Application.Handlers.{Services}
use merge_mate.Application.Orchestrator.{Dependencies}
use merge_mate.Application.Worker.{Worker}

abbrev pub chat : ChatId
chat = positive 7

-- A run of the chat, with its id, status, approval and time of creation.
abbrev pub run_of : String → RunStatus → Bool → ℕ → AgentRun
run_of id status approved at = record {
  run_id = id;
  chat_id = chat;
  user_id = chat;
  agent_name = "coder";
  workflow = "generate_code";
  status = status;
  current_stage = "planning";
  prompt = "add a test";
  estimate_seconds = 60;
  plan_text = some "plan";
  design_text = none;
  test_text = none;
  review_text = none;
  review_iterations = 0;
  approved = approved;
  result_text = none;
  error_text = none;
  created_at = at;
  updated_at = at;
  repo_name = none;
}

abbrev pub waiting : AgentRun
waiting = run_of "a" RunStatus.awaiting_confirmation false 1

abbrev pub ready : AgentRun
ready = run_of "b" RunStatus.queued true 2

abbrev pub finished : AgentRun
finished = run_of "c" RunStatus.completed true 3

abbrev pub runs : Table
runs = waiting ∷ ready ∷ finished ∷ []

abbrev pub job : RunJob
job = record {
  job_id = "j";
  run_id = "b";
  job_type = execute_run;
  status = RunJobStatus.queued;
  attempt_count = 0;
  lease_owner = none;
  lease_expires_at = none;
  last_heartbeat_at = none;
  error_text = none;
  queued_at = 2;
  started_at = none;
  finished_at = none;
  updated_at = 2;
}

abbrev pub world : World
world = record {
  runs = runs;
  jobs = job ∷ [];
  messages = [];
  events = [];
  queue = empty_queue;
  clock = 10;
  drawn = 0;
}

abbrev pub ids : ℕ → String
ids zero = "new"
ids (suc _) = "next"

abbrev pub setup : Setup
setup = record {
  require_confirmation = true;
  repo_name = none;
  estimate_duration = λ w p. 60;
  draft_plan = λ p f. pure "plan";
  revise_plan = λ p f. pure (p, "plan");
  uuid = ids;
}

abbrev pub services : Services
services = record {
  create_design = λ a b. pure "design";
  generate_code = λ a b c d. pure "code";
  generate_tests = λ a b c. pure "tests";
  review = λ a b c d. pure "fine";
  record_lesson = λ a b c d e f g. pure "lesson";
  execute_direct = λ a b c. pure "done";
  has_high_concerns = λ t. false;
  draft_plan = λ a b. pure "plan";
  write_architecture_design = λ a b c d e. pure "design.md";
  write_test_plan = λ a b c d e f. pure "tests.md";
  write_review_report = λ a b c d e f g h. pure "review.md";
  write_lesson = λ a b c d e. pure "lesson.md";
  remember_success = λ a b c d. pure tt;
}

abbrev pub deps : Dependencies Bool Bool
deps = record {
  repo_name = none;
  registry = builtin_registry;
  max_iterations = 2;
  load_recent_messages = λ c. pure [];
  load_grouped_learnings = λ c w. pure true;
  load_repo_knowledge = λ c r. pure true;
  render = λ w m l p k. pure ("system", "context");
  soul_prompt = λ a. none;
  build_runtime_tool_context = λ r a. pure "";
  services = services;
  strip = λ t. t;
  progress_summary = λ p r. none;
}

abbrev pub worker : Worker
worker = record {
  worker_id = "w";
  lease_seconds = 30;
  acquire = pure tt;
  gather_heartbeat = pure tt;
  notify_terminal = λ r. pure tt;
  notify_plan_ready = λ r. pure tt;
  notify_auto_execution_started = λ r. pure tt;
}

pub waiting_found : get "a" runs ≡ some waiting
unfolding get find
waiting_found = refl

pub ready_found : get "b" runs ≡ some ready
unfolding get find
ready_found = refl

pub finished_found : get "c" runs ≡ some finished
unfolding get find
finished_found = refl

pub runs-IsRunTable : IsRunTable runs
unfolding find
runs-IsRunTable = (refl, (refl, (refl, tt)))
