-- ===== src/Samples/Execution.antt =====
-- The theorems on started runs and on the worker, on concrete runs.
use merge_mate.Base.{
  Bool, arith, ◌≡◌, ◌≢◌, refl, true, false, none, some, [], ◌∷◌, find, elem, update_where,
  count_where,
}
use merge_mate.Domain.Status.{queued, running, failed, is_terminal}
use merge_mate.Persistence.RunRepository.{get, try_update_status, status_row}
use merge_mate.Persistence.RunRepository.Writes.{IsRunTable}
use merge_mate.Persistence.JobRepository.Endings.{end_job, failing}
use merge_mate.Queue
use merge_mate.Queue.{LocalQueue, acknowledge}
use merge_mate.Domain.Runs.{AgentRun}
use merge_mate.World.{World, on_runs, ok, raised, Error, other, raise, Ensures}
use merge_mate.Application.Orchestrator.{Dependencies, process_run, process_found, deliver_run}
use merge_mate.Application.Orchestrator.Starts.{
  claimed, claimed_run, process_run-once, process_run-IsEnded,
}
use merge_mate.Domain.Workflows.Plans.{direct}
use merge_mate.Application.Delivery.{ExecutionContext, execute_plan}
use merge_mate.Application.Delivery.Passes.{IsEnded}
use merge_mate.Application.Delivery.Endings.{execute_plan-IsEnded}
use merge_mate.Application.Worker.{Tasks, process_execution_job, mark_shutdown_interrupted}
use merge_mate.Application.Worker.Containment.{process_execution_job-failure, failed_row}
use merge_mate.Application.Worker.Shutdown.{left_run, mark_shutdown_interrupted_lem}
use merge_mate.Application.Worker.Intake.{
  IsAligned, IsAlignedPair, begin, step, put, IsReached-IsAligned,
}
use merge_mate.Samples.{
  ready, world, job, setup, deps, services, worker, ready_found, runs-IsRunTable,
}

process_run-once_example :
    (process_run deps "b" world
      ≡ deliver_run deps (claimed_run deps "b" world ready) (claimed deps "b" world ready))
    × (get "b" (claimed deps "b" world ready).runs ≡ some (claimed_run deps "b" world ready))
    × ((claimed_run deps "b" world ready).status ≡ running)
    × (process_run deps "b" (claimed deps "b" world ready)
        ≡ (ok (claimed_run deps "b" world ready), claimed deps "b" world ready))
    × ((v : World) (x : AgentRun)
        → IsRunTable v.runs
        → get "b" v.runs ≡ some x
        → x.status ≢ queued
        → process_found deps "b" (some ready) v ≡ (ok x, v))
process_run-once_example = process_run-once deps "b" world ready runs-IsRunTable ready_found refl

process_run-IsEnded_example : Ensures (IsEnded "b") (process_run deps "b" world)
process_run-IsEnded_example =
    process_run-IsEnded deps "b" world ready runs-IsRunTable ready_found refl

abbrev context : ExecutionContext
context = record { run = ready; system_prompt = "system"; context_text = "context" }

execute_plan-IsEnded_example :
    Ensures
      (IsEnded "b")
      (execute_plan services (λ t. t) (λ p r. none) "coder" direct context world)
execute_plan-IsEnded_example =
    execute_plan-IsEnded services (λ t. t) (λ p r. none) "coder" direct context world

-- Settings in which the load of the messages fails.
abbrev broken : Dependencies Bool Bool
broken = record deps { load_recent_messages = λ c. raise other "no database" }

abbrev error : Error
error = record { kind = other; text = "no database" }

abbrev after : World
after = claimed broken "b" world ready

broken_raises : process_run broken "b" world ≡ (raised error, after)
unfolding process_run deliver_run get find on_runs try_update_status update_where status_row
    count_where
broken_raises = refl

after-IsRunTable : IsRunTable after.runs
unfolding try_update_status status_row find update_where get
after-IsRunTable = (refl, (refl, (refl, tt)))

process_execution_job-failure_example :
    ((process_execution_job setup broken worker job world).0
      ≡ ok (some (failed_row error after (claimed_run broken "b" world ready))))
    × (get "b" (process_execution_job setup broken worker job world).1.runs
        ≡ some (failed_row error after (claimed_run broken "b" world ready)))
    × ((failed_row error after (claimed_run broken "b" world ready)).status ≡ failed)
    × ((process_execution_job setup broken worker job world).1.jobs
        ≡ end_job (failing "no database") 10 "j" after.jobs)
process_execution_job-failure_example =
    process_execution_job-failure setup broken worker job world after error
      (claimed_run broken "b" world ready) broken_raises refl after-IsRunTable
      (process_run-once broken "b" world ready runs-IsRunTable ready_found refl).1

mark_shutdown_interrupted_lem_example :
    ((mark_shutdown_interrupted "b" "j" world).0 ≡ ok (some (left_run "b" "j" world ready)))
    × (get "b" (mark_shutdown_interrupted "b" "j" world).1.runs
        ≡ some (left_run "b" "j" world ready))
    × (is_terminal (left_run "b" "j" world ready).status ≡ true)
    × ((mark_shutdown_interrupted "b" "j" world).1.jobs
        ≡ end_job (failing "Run interrupted during shutdown.") 10 "j" world.jobs)
mark_shutdown_interrupted_lem_example =
    mark_shutdown_interrupted_lem "b" "j" world ready runs-IsRunTable ready_found

abbrev idle : Tasks
idle = record { active_job_ids = []; stopping = false }

abbrev busy : Tasks
busy = record { active_job_ids = "k" ∷ []; stopping = false }

abbrev one_job : LocalQueue
one_job = record { items = "j" ∷ []; pending = "j" ∷ []; unfinished = 1 }

abbrev one_task : LocalQueue
one_task = record { items = []; pending = "k" ∷ []; unfinished = 1 }

one_job-IsAligned : IsAligned one_job idle
unfolding elem
one_job-IsAligned = record {
  pending_ids = λ a. ground arith;
  apart = λ a. ground arith;
  items_once = (refl, tt);
  active_once = tt;
  counted = refl;
}

one_task-IsAligned : IsAligned one_task busy
unfolding elem
one_task-IsAligned = record {
  pending_ids = λ a. refl;
  apart = λ a. refl;
  items_once = tt;
  active_once = (refl, tt);
  counted = refl;
}

IsReached-IsAligned_example : IsAlignedPair ((Queue.enqueue "j" Queue.empty_queue).1, idle)
IsReached-IsAligned_example =
    IsReached-IsAligned ((Queue.enqueue "j" Queue.empty_queue).1, idle)
      (step _ _ (put "j" Queue.empty_queue idle) begin)
