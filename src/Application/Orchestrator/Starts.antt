-- ===== src/Application/Orchestrator/Starts.antt =====
-- When `process_run` starts a run, and that it starts it at most once.
use merge_mate.Base.{
  String, ◌≡◌, ◌≢◌, inl, inr, Bool-cases, refl, ap, ◌∙◌, Bool, true, false, ◌&&◌, none, some, arith,
}
use merge_mate.Domain.Status.{RunStatus, same, same→eq, is_skipped, queued, running}
use merge_mate.Domain.Runs.{AgentRun, Decision}
use merge_mate.Persistence.RunRepository.{get, try_update_status, status_row}
use merge_mate.Persistence.RunRepository.Writes.{
  IsRunTable, try_update_status_cas, try_update_status-refused,
}
use merge_mate.Domain.Workflows.Plans.{build_execution_plan}
use merge_mate.World.{World, ok, on_runs, Ensures, after-Ensures}
use merge_mate.Application.Delivery.Passes.{IsEnded}
use merge_mate.Application.Delivery.Endings.{execute_plan-IsEnded}
use merge_mate.Application.Orchestrator.{
  without_prompt, Dependencies, start, process_run, process_found, started, deliver_run,
  requires_tool_context, tool_context,
}

-- The runs that `process_run` starts.
abbrev pub is_startable : AgentRun → Bool
is_startable r = r.approved && same r.status queued

module _ {L K : Type 0} (deps : Dependencies L K) (id : String) (w : World) (r : AgentRun) where
  process_found_lem :
      get id w.runs ≡ some r → process_run deps id w ≡ process_found deps id (some r) w
  unfolding process_run
  process_found_lem h = rw (h, process_run) refl

  -- process_run returns a run that is not approved or not queued as it is, and changes nothing.
  pub process_run-idle :
      get id w.runs ≡ some r → is_startable r ≡ false → process_run deps id w ≡ (ok r, w)
  unfolding process_found
  process_run-idle h idle = process_found_lem h ∙ ground arith

not_queued : (s : RunStatus) → s ≢ queued → same s queued ≡ false
not_queued s other = elim (Bool-cases (same s queued)) [
  | inl e ↦ absurd (other (same→eq s queued e))
  | inr e ↦ e
]

module _ {L K : Type 0} (deps : Dependencies L K) (id : String) (w : World) (r : AgentRun) where
  -- The world in which the run has been started.
  abbrev pub claimed : World
  claimed = record w { runs = (try_update_status start w.clock id w.runs).1 }

  abbrev pub claimed_run : AgentRun
  claimed_run = status_row start w.clock r r

  -- A process_run that has read the run as startable, and whose update comes where the run is not
  -- queued any more.
  process_found-late :
      (v : World) (x : AgentRun)
      → is_startable r ≡ true
      → IsRunTable v.runs
      → get id v.runs ≡ some x
      → same x.status queued ≡ false
      → process_found deps id (some r) v ≡ (ok x, v)
  unfolding process_found started on_runs
  process_found-late v x e k h moved =
      let approved : r.approved ≡ true = ground arith in
      let waits : same r.status queued ≡ true = ground arith in
      let fresh : is_skipped r.status ≡ false = rw (same→eq r.status queued waits) refl in
      let late = try_update_status-refused start v.clock id v.runs x k h moved in
      rw (fresh, approved, waits) (rw late refl)

  -- For an approved and queued run of a table with unique ids, process_run first sets the run to
  -- running, by an update that asks for the queued status, and goes on from there; in the world
  -- after that update another process_run of the run returns the running run and changes nothing.
  -- A process_run that has read the run as it was then, but whose update comes where the run has
  -- another status, returns the run as it then is and changes nothing.
  pub process_run-once :
      IsRunTable w.runs
      → get id w.runs ≡ some r
      → is_startable r ≡ true
      → (process_run deps id w ≡ deliver_run deps claimed_run claimed)
        × (get id claimed.runs ≡ some claimed_run)
        × (claimed_run.status ≡ running)
        × (process_run deps id claimed ≡ (ok claimed_run, claimed))
        × ((v : World) (x : AgentRun)
            → IsRunTable v.runs
            → get id v.runs ≡ some x
            → x.status ≢ queued
            → process_found deps id (some r) v ≡ (ok x, v))
  unfolding process_found started on_runs
  process_run-once k h e =
      let approved : r.approved ≡ true = ground arith in
      let waits : same r.status queued ≡ true = ground arith in
      let fresh : is_skipped r.status ≡ false = rw (same→eq r.status queued waits) refl in
      let (row, run, moved) = try_update_status_cas start w.clock id w.runs r k h in
      let row' : get id claimed.runs ≡ some claimed_run = row ∙ rw waits refl in
      let d : Decision = (try_update_status start w.clock id w.runs).0 in
      let goes : process_found deps id (some r) w ≡ started deps d.transitioned d.run claimed =
        ground arith in
      let started_run : started deps d.transitioned d.run claimed
          ≡ deliver_run deps claimed_run claimed =
        ap (λ x. started deps x d.run claimed) (moved ∙ waits)
        ∙ ap (λ x. started deps true x claimed) (run ∙ row') in
      let status : claimed_run.status ≡ running = unfold status_row in refl in
      (
        process_found_lem deps id w r h ∙ (goes ∙ started_run),
        row',
        status,
        process_run-idle deps id claimed claimed_run row' (unfold status_row in ground arith),
        λ v x keyed there moved. process_found-late v x e keyed there (not_queued x.status moved),
      )

module _ {L K : Type 0} (deps : Dependencies L K) where
  deliver_run-IsEnded :
      (run : AgentRun) (w : World) → Ensures (IsEnded run.run_id) (deliver_run deps run w)
  unfolding deliver_run
  deliver_run-IsEnded run w =
      let Q = IsEnded run.run_id in
      after-Ensures Q _
        (λ recent w1.
          after-Ensures Q _
            (λ learned w2.
              after-Ensures Q _
                (λ knowledge w3.
                  after-Ensures Q _
                    (λ prompts w4.
                      after-Ensures Q _
                        (λ plan w5.
                          after-Ensures Q _
                            (λ tools w6.
                              after-Ensures Q _
                                (λ context w7.
                                  execute_plan-IsEnded deps.services deps.strip
                                    deps.progress_summary run.agent_name plan _ w7)
                                (tool_context deps run prompts.1 tools) w6)
                            (requires_tool_context plan) w5)
                        (λ v.
                          (build_execution_plan deps.registry deps.max_iterations run.workflow, v))
                        w4)
                    (deps.render run.workflow (without_prompt run.prompt recent) learned run.prompt
                      knowledge)
                    w3)
                (deps.load_repo_knowledge run.chat_id
                  (elim run.repo_name [ none ↦ deps.repo_name | some name ↦ some name ]))
                w2)
            (deps.load_grouped_learnings run.chat_id run.workflow) w1)
        (deps.load_recent_messages run.chat_id) w

  -- For an approved and queued run of a table with unique ids, what process_run returns is the run
  -- as the table then holds it, cancelled or completed; otherwise process_run raises.
  pub process_run-IsEnded :
      (id : String) (w : World) (r : AgentRun)
      → IsRunTable w.runs
      → get id w.runs ≡ some r
      → is_startable r ≡ true
      → Ensures (IsEnded r.run_id) (process_run deps id w)
  unfolding status_row
  process_run-IsEnded id w r k h e =
      let step = (process_run-once deps id w r k h e).0 in
      rw step (deliver_run-IsEnded (claimed_run deps id w r) (claimed deps id w r))
