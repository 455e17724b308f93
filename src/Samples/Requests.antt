-- ===== src/Samples/Requests.antt =====
-- The theorems on the requests of a chat, on a run that waits for its confirmation.
use merge_mate.Base.{◌≡◌, refl, false, some, Option, find, [], ◌∷◌, select}
use merge_mate.Domain.Status.{execute_run}
use merge_mate.Domain.Runs.{RunJob}
use merge_mate.Persistence.RunRepository.{get, approve_row}
use merge_mate.Persistence.JobRepository.{active_for, get_job}
use merge_mate.Queue.{enqueue}
use merge_mate.World.{ok}
use merge_mate.Application.Submission.Confirmation.{approve, cancel}
use merge_mate.Application.Submission.Guards.{IsReady, IsRefusal, says_cancelled}
use merge_mate.Application.Submission.Dispatch.{CanDispatch}
use merge_mate.Application.Submission.Races.{granted, approve_wins}
use merge_mate.Samples.{chat, waiting, world, setup, waiting_found, runs-IsRunTable}

can : CanDispatch setup world
unfolding get_job find
can = record { unique = ((λ h. refl), tt); fresh = refl }

waiting-IsReady : IsReady (some chat) waiting
waiting-IsReady = record { ours = refl; waiting = refl; unapproved = refl; has_plan = λ h. cc }

approve_wins_example :
    let w' = (approve setup "a" (some chat) world).1 in
    ((approve setup "a" (some chat) world).0 ≡ ok (some (granted waiting)))
    × (get "a" w'.runs ≡ some (approve_row 10 waiting waiting))
    × ((j : RunJob) × (select (active_for "a" execute_run) w'.jobs ≡ j ∷ [])
        × (w'.queue ≡ (enqueue j.job_id world.queue).1))
    × ((chat' : Option _) → IsRefusal w' (approve setup "a" chat' w'))
    × ((chat' : Option _)
        → let (out, w'') = cancel (some "a") chat' w' in (w'' ≡ w') × (says_cancelled out ≡ false))
approve_wins_example =
    approve_wins setup "a" (some chat) "plan" world waiting runs-IsRunTable waiting_found
      waiting-IsReady refl can
