-- ===== src/Application/Submission/Planning.antt =====
-- What a failure of the planning leaves.
use merge_mate.Base.{String, ◌≡◌, refl, true, none, some}
use merge_mate.Domain.Status.{planning, failed}
use merge_mate.Domain.Runs.{AgentRun}
use merge_mate.Persistence.RunRepository.{get, status_row, update_status}
use merge_mate.Persistence.RunRepository.Writes.{IsRunTable, try_update_status_cas}
use merge_mate.World.{
  World, raised, Error, prompt_submission, is_exception, on_runs, try_else-caught,
}
use merge_mate.Application.Submission.{
  Setup, complete_planning, complete_planning_of, planning_failed, planned, failure,
}

-- The run as a failed planning marks it.
abbrev pub unplanned : Error → World → AgentRun → AgentRun
unplanned e w r = status_row (failure planning e.text) w.clock r r

module _ (s : Setup) (id : String) (w w' : World) (first r : AgentRun) (e : Error) where
  failure_step :
      get id w.runs ≡ some first
      → s.draft_plan first.prompt none w ≡ (raised e, w')
      → is_exception e.kind ≡ true
      → complete_planning s id w ≡ planning_failed s id e w'
  unfolding complete_planning complete_planning_of
  failure_step found h caught =
      rw (found, complete_planning)
        (try_else-caught is_exception (s.draft_plan first.prompt none) (planning_failed s id)
          (planned s id first) w w' e h caught)

  -- If the drafting of the plan raises an Exception, complete_planning marks the run as failed
  -- with the text of the exception, whatever its status was by then, dispatches nothing, and
  -- raises a PromptSubmissionError with that text.
  pub complete_planning-failure :
      get id w.runs ≡ some first
      → s.draft_plan first.prompt none w ≡ (raised e, w')
      → is_exception e.kind ≡ true
      → IsRunTable w'.runs
      → get id w'.runs ≡ some r
      → let (out, u) = complete_planning s id w in
        (out ≡ raised (record { kind = prompt_submission; text = e.text }))
        × (get id u.runs ≡ some (unplanned e w' r))
        × ((unplanned e w' r).status ≡ failed)
        × (u.jobs ≡ w'.jobs)
  unfolding planning_failed on_runs update_status status_row
  complete_planning-failure found h caught k there =
      let row = (try_update_status_cas (failure planning e.text) w'.clock id w'.runs r k there).0 in
      rw (failure_step found h caught) (refl, row, refl, refl)
