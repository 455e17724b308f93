-- ===== src/Samples/Runs.antt =====
-- The theorems on the table of runs, on a table with three runs.
use merge_mate.Base.{◌≡◌, refl, true, none, some, [], ◌∷◌, select, find}
use merge_mate.Persistence.RunRepository.{
  get, try_update_status, status_row, approve, get_latest_non_terminal_for_chat, newest_first,
  insert_newest, list_for_chat,
}
use merge_mate.Persistence.RunRepository.Writes.{try_update_status_cas}
use merge_mate.Persistence.RunRepository.Frame.{by_approval, Written-frame}
use merge_mate.Application.Orchestrator.{start}
use merge_mate.Samples.{chat, ready, finished, runs, ready_found, runs-IsRunTable}

try_update_status_cas_example :
    (get "b" (try_update_status start 10 "b" runs).1 ≡ some (status_row start 10 ready ready))
    × ((try_update_status start 10 "b" runs).0.run
        ≡ get "b" (try_update_status start 10 "b" runs).1)
    × ((try_update_status start 10 "b" runs).0.transitioned ≡ true)
try_update_status_cas_example =
    try_update_status_cas start 10 "b" runs ready runs-IsRunTable ready_found

Written-frame_example : get "b" (approve 10 "a" runs).1 ≡ get "b" runs
Written-frame_example = Written-frame "a" "b" runs (approve 10 "a" runs).1 (by_approval 10) refl

latest_found : get_latest_non_terminal_for_chat chat runs ≡ some ready
unfolding get_latest_non_terminal_for_chat list_for_chat newest_first insert_newest select find
latest_found = refl

latest_missing : get_latest_non_terminal_for_chat chat (finished ∷ []) ≡ none
unfolding get_latest_non_terminal_for_chat list_for_chat newest_first insert_newest select find
latest_missing = refl
