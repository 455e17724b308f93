-- ===== src/Application/Submission/Confirmation.antt =====
-- src/mergemate/application/use_cases/submit_prompt.py: what a user does with a plan, that is
-- `revise_plan_for_chat` and `approve`; and use_cases/cancel_run.py.
use merge_mate.Base.{String, Bool, true, false, ◌||◌, not, Option, none, some, if◌then◌else◌}
use merge_mate.Domain.Status.{
  RunStatus, same, is_terminal, value, execute_run, awaiting_confirmation, failed,
}
use merge_mate.Domain.Runs.{AgentRun, ChatId, chat_eq, Decision}
use merge_mate.Persistence.RunRepository
use merge_mate.Persistence.RunRepository.{
  StatusUpdate, update_plan, try_update_status, get_latest_non_terminal_for_chat,
}
use merge_mate.World.{
  World, Action, Error, prompt_submission, is_exception, pure, raise, gets, try_else, ◌>>=◌, ◌>>◌,
  on_runs, append_message,
}
use merge_mate.Application.Submission.{
  Setup, SubmitPromptResult, ApproveRunResult, get_run, set_status, dispatch_or_fail,
}

-- `chat_id is not None and run.chat_id != chat_id`
abbrev pub foreign : Option ChatId → AgentRun → Bool
foreign none r = false
foreign (some chat) r = not (chat_eq r.chat_id chat)

abbrev pub refused : AgentRun → Option String → ApproveRunResult
refused r error = record {
  run_id = r.run_id;
  dispatched = false;
  status = value r.status;
  error_text = error;
}

module _ (s : Setup) where
  open s use {revise_plan}

  revision_failed : String → AgentRun → Error → Action (Option SubmitPromptResult)
  revision_failed id r e = do
    set_status
        (record {
          status = r.status;
          expected_current_status = none;
          current_stage = some r.current_stage;
          result_text = none;
          error_text = some e.text;
        })
        id
    raise prompt_submission e.text

  revised_run : AgentRun → String → String → Option AgentRun → Action (Option SubmitPromptResult)
  revised_run r feedback plan none = pure none
  revised_run r feedback plan (some u) = do
    append_message r.chat_id "user" feedback
    pure (
        some (record {
          run_id = u.run_id;
          status = value u.status;
          estimate_seconds = u.estimate_seconds;
          plan_text = some plan;
        }))

  revised : String → AgentRun → String → String × String → Action (Option SubmitPromptResult)
  unfolding revised_run
  revised id r feedback (prompt, plan) = do
    u ← on_runs (λ now. update_plan plan (some prompt) none now id)
    revised_run r feedback plan u

  revise_of : String → String → Option ChatId → Option AgentRun → Action (Option SubmitPromptResult)
  unfolding revision_failed revised
  revise_of id feedback chat none = pure none
  revise_of id feedback chat (some r) =
      if foreign chat r
      then pure none
      else try_else is_exception (revise_plan r.prompt feedback) (revision_failed id r)
          (revised id r feedback)

  unfoldable pub revise_plan_for_chat :
      String → String → Option ChatId → Action (Option SubmitPromptResult)
  unfolding revise_of
  revise_plan_for_chat id feedback chat = do run ← get_run id; revise_of id feedback chat run

  dispatched : String → AgentRun → Option String → ApproveRunResult
  dispatched id r none = record {
    run_id = r.run_id;
    dispatched = true;
    status = value r.status;
    error_text = none;
  }
  dispatched id r (some error) = record {
    run_id = id;
    dispatched = false;
    status = value failed;
    error_text = some error;
  }

  pub approved_of : String → Bool → Option AgentRun → Action (Option ApproveRunResult)
  unfolding dispatched
  approved_of id transitioned none = pure none
  approved_of id false (some r) = pure (some (refused r none))
  approved_of id true (some r) = do
    error ← dispatch_or_fail s id execute_run false
    pure (some (dispatched id r error))

  -- The tests of `approve` before it writes, in their order.
  abbrev pub waits : AgentRun → Bool
  waits r = not (r.approved || not (same r.status awaiting_confirmation))

  -- `approve` from the test of the plan on.
  pub approve_planned : String → AgentRun → Option String → Action (Option ApproveRunResult)
  unfolding approved_of
  approve_planned id r none =
      pure (some (refused r (some "Run planning is still in progress and cannot be approved yet.")))
  approve_planned id r (some plan) =
      if waits r
      then (do
        d ← on_runs (λ now. RunRepository.approve now id)
        approved_of id d.transitioned d.run)
      else pure (some (refused r none))

  pub approve_of : String → Option ChatId → Option AgentRun → Action (Option ApproveRunResult)
  unfolding approve_planned
  approve_of id chat none = pure none
  approve_of id chat (some r) =
      if foreign chat r
      then pure none
      else if is_terminal r.status
      then pure (some (refused r none))
      else approve_planned id r r.plan_text

  -- `SubmitPromptUseCase.approve`
  unfoldable pub approve : String → Option ChatId → Action (Option ApproveRunResult)
  unfolding approve_of
  approve id chat = do run ← get_run id; approve_of id chat run

pub record CancelRunResult : Type 0 where
  pub run_id : String
  pub cancelled : Bool
  pub status : String

abbrev pub not_cancelled : AgentRun → CancelRunResult
not_cancelled r = record { run_id = r.run_id; cancelled = false; status = value r.status }

-- The run that `CancelRunUseCase.execute` looks up.
cancel_target : Option String → Option ChatId → Action (Option AgentRun)
cancel_target (some id) chat = do
  run ← get_run id
  pure (elim run [ none ↦ none | some r ↦ if foreign chat r then none else some r ])
cancel_target none (some chat) = gets (λ (w : World). get_latest_non_terminal_for_chat chat w.runs)
cancel_target none none = pure none

abbrev pub cancellation : StatusUpdate
cancellation = record {
  status = RunStatus.cancelled;
  expected_current_status = some awaiting_confirmation;
  current_stage = none;
  result_text = none;
  error_text = none;
}

cancelled_of : AgentRun → Decision → Option CancelRunResult
cancelled_of r d = elim d.run [
  | none ↦ none
  | some c ↦
      if d.transitioned
      then some (record { run_id = r.run_id; cancelled = true; status = value RunStatus.cancelled })
      else some (not_cancelled c)
]

pub cancel_of : Option AgentRun → Action (Option CancelRunResult)
unfolding cancelled_of
cancel_of none = pure none
cancel_of (some r) =
    if same r.status awaiting_confirmation
    then (do
      d ← on_runs (λ now. try_update_status cancellation now r.run_id)
      pure (cancelled_of r d))
    else pure (some (not_cancelled r))

-- `CancelRunUseCase.execute`
unfoldable pub cancel : Option String → Option ChatId → Action (Option CancelRunResult)
unfolding cancel_target cancel_of
cancel id chat = do run ← cancel_target id chat; cancel_of run
