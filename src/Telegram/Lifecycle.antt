-- ===== src/Telegram/Lifecycle.antt =====
-- src/mergemate/interfaces/telegram/lifecycle_notifier.py: what a chat is told when a plan is ready, a run
-- starts, or a run ends. Sending a text and starting a watcher are parameters.
use merge_mate.Base.{
  ℕ, String, Bool, true, false, Option, none, some, ◌≡◌, if◌then◌else◌, Bool-cases, inl, inr,
}
use merge_mate.Domain.Status.{is_terminal}
use merge_mate.Domain.Runs.{AgentRun}
use merge_mate.World.Effects.{
  Exec, Outcome, ok, raised, pure, raise, try_else, is_exception, value_error,
}
use merge_mate.Telegram.Watcher.{
  Chatroom, Reading, Watch, notify_terminal_update, delivered, format_terminal_update,
}
use merge_mate.Telegram.Presenter.{
  Printing, format_plan_for_confirmation, format_auto_execution_started, text_of,
}

-- `_application` and `_runtime`, that is whether they are bound, and what is done with them. The agent
-- of the planning is none where `resolve_agent_name_for_workflow` raises.
pub record Notifier (W : Type 0) : Type 0 where
  pub has_application : Bool
  pub has_runtime : Bool
  pub planner : Option String
  pub printing : Printing
  pub now : ℕ
  pub watch : Watch W
  pub start_progress_watcher : String → Exec (Chatroom W) (Unit {0})

-- `bind_application` and `bind_runtime`
module _ {W : Type 0} where
  abbrev pub bind_application : Notifier W → Notifier W
  bind_application n = record n { has_application = true }

  abbrev pub bind_runtime : Notifier W → Notifier W
  bind_runtime n = record n { has_runtime = true }

module _ {W : Type 0} (n : Notifier W) where
  -- `try: … except Exception: return False` and `return True`, or what follows.
  abbrev pub unless_failed :
      Exec (Chatroom W) (Unit {0}) → Exec (Chatroom W) Bool → Exec (Chatroom W) Bool
  unless_failed body next = try_else is_exception body (λ e. pure false) (λ _. next)

  abbrev pub send_plan : AgentRun → Option String → Exec (Chatroom W) (Unit {0})
  send_plan run none = raise value_error ""
  send_plan run (some agent) = n.watch.send_text_chunks (
      format_plan_for_confirmation n.printing n.now run.run_id agent (text_of run.plan_text)
        run.estimate_seconds)

  unfoldable pub notify_plan_ready : AgentRun → Exec (Chatroom W) Bool
  notify_plan_ready run w =
      if n.has_application
      then unless_failed (send_plan run n.planner) (pure true) w
      else (ok false, w)

  -- The watcher's start, whose failure is logged.
  abbrev pub started : AgentRun → Exec (Chatroom W) Bool
  started run =
      try_else is_exception (n.start_progress_watcher run.run_id) (λ e. pure true) (λ _. pure true)

  unfoldable pub notify_auto_execution_started : AgentRun → Exec (Chatroom W) Bool
  notify_auto_execution_started run w =
      let sent =
        unless_failed
          (n.watch.send_text_chunks (
            format_auto_execution_started n.printing n.now run.run_id (text_of run.plan_text)
              run.estimate_seconds))
          (started run) w in
      if n.has_application then if n.has_runtime then sent else (ok false, w) else (ok false, w)

  abbrev pub reading_of : AgentRun → Reading
  reading_of run = record {
    run_id = run.run_id;
    snapshot = record {
      status = run.status;
      stage = run.current_stage;
      review_iterations = run.review_iterations;
      signature = none;
    };
    result_text = run.result_text;
    error_text = run.error_text;
  }

  unfoldable pub notify_terminal : AgentRun → Exec (Chatroom W) Bool
  notify_terminal run w =
      let told = notify_terminal_update n.watch (reading_of run) w in
      if n.has_application
      then if is_terminal run.status then told else (ok false, w)
      else (ok false, w)

  -- A Boolean comes back, or what ends the notification is no Exception.
  abbrev pub IsTold : {S : Type 0} → Outcome Bool × S → Type 0
  IsTold (ok b, w) = Unit
  IsTold (raised e, w) = is_exception e.kind ≡ false

  try_else-IsTold :
      (body : Exec (Chatroom W) (Unit {0})) (b : Bool) (rest : Unit {0} → Exec (Chatroom W) Bool)
      (w : Chatroom W)
      → ((v : Chatroom W) → IsTold (rest tt v))
      → IsTold (try_else is_exception body (λ e. pure b) rest w)
  try_else-IsTold body b rest w h = ended (body w).0 (body w).1
    where
      ended :
          (r : Outcome (Unit {0})) (v : Chatroom W)
          → IsTold (elim r as (λ _. Outcome Bool × Chatroom W) [
            | ok a ↦ rest a v
            | raised e ↦ if is_exception e.kind then (ok b, v) else (raised e, v)
          ])
      ended (ok a) v = h v
      ended (raised e) v = elim (Bool-cases (is_exception e.kind)) [
        | inl c ↦ rw c tt
        | inr c ↦ rw c c
      ]

  guarded-IsTold :
      (b : Bool) (w : Chatroom W) (r : Outcome Bool × Chatroom W)
      → IsTold r
      → IsTold (if b then r else (ok false, w))
  guarded-IsTold true w r h = h
  guarded-IsTold false w r h = tt

  pub notify-IsTold :
      (run : AgentRun) (w : Chatroom W)
      → IsTold (notify_plan_ready run w)
        × IsTold (notify_auto_execution_started run w)
        × IsTold (notify_terminal run w)
  unfolding notify_plan_ready notify_auto_execution_started notify_terminal notify_terminal_update
  notify-IsTold run w = (
    guarded-IsTold n.has_application w _
        (try_else-IsTold (send_plan run n.planner) false (λ _. pure true) w (λ v. tt)),
    guarded-IsTold n.has_application w _ (
        guarded-IsTold n.has_runtime w _ (
          try_else-IsTold
            (n.watch.send_text_chunks (
              format_auto_execution_started n.printing n.now run.run_id (text_of run.plan_text)
                run.estimate_seconds))
            false (λ _. started run) w
            (λ v.
              try_else-IsTold (n.start_progress_watcher run.run_id) true (λ _. pure true) v
                (λ u. tt)))),
    guarded-IsTold n.has_application w _ (
        guarded-IsTold (is_terminal run.status) w _ (
          try_else-IsTold
            (n.watch.send_text_chunks (format_terminal_update n.watch (reading_of run))) false
            (λ _. delivered n.watch (reading_of run)) w (λ v. tt))),
  )
