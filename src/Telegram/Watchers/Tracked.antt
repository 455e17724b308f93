-- ===== src/Telegram/Watchers/Tracked.antt =====
-- Every watcher that runs is the one that the registry has for its run.
use merge_mate.Base.{
  ℕ, ◌≤◌, String, Bool, true, false, not, ◌&&◌, ◌||◌, some, List, [], ◌∷◌, ◌≡◌, refl, sym, ap, ◌∙◌,
  str_eq, eq_iff, eq_refl, ◌==◌, All, All-mp, All-pair, count_where, Bool-cases, inl, inr, arith,
}
use merge_mate.Config.{get_entry}
use merge_mate.Telegram.Watchers.Tasks.{
  get_entry-set_entry, get_entry-pop_entry, get_entry-has_task, IsBelow, IsBelow-end_task,
  live-is_live,
}
use merge_mate.Telegram.Watchers.{
  WatcherTask, Watchers, is_live, start_progress_watcher, end_task, finish, cleanup, has_task,
  stop_progress_watchers, deliver, WatchersStep, starts, ends, delivers, cleans, stops, IsReached,
  at_start, behind, is_running, is_task,
}

-- The ids fall, and the registry has every task that is not done.
abbrev pub IsTracked : Watchers → Type 0
IsTracked w =
    IsBelow w.next w.tasks
    × All (λ t. t.done ≡ false → get_entry t.run_id w.registry ≡ some t.id) w.tasks

-- What holds of the tasks that are not done once some of them have ended.
All-end_task :
    (P Q : WatcherTask → Type 0) (p : WatcherTask → Bool)
    (next : (t : WatcherTask)
      → t.done ≡ false
      → p t ≡ false
      → P t
      → Q (record t { done = t.done || p t }))
    (ts : List WatcherTask)
    → All (λ t. t.done ≡ false → P t) ts
    → All (λ t. t.done ≡ false → Q t) (end_task p ts)
unfolding end_task
All-end_task P Q p next [] h = tt
All-end_task P Q p next (t ∷ ts) h = (
  λ e.
      let live : t.done ≡ false = ground (arith, e) in
      let spared : p t ≡ false = ground (arith, e) in next t live spared (h.0 live),
  All-end_task P Q p next ts h.1,
)

-- A run whose watcher runs does not pass the test of start_progress_watcher.
tracked-not_running :
    {A : Type 0} (run : String) (t : WatcherTask) (w : Watchers)
    → get_entry t.run_id w.registry ≡ some t.id
    → str_eq run t.run_id ≡ true
    → is_live t.id w.tasks ≡ true
    → is_running w.tasks (get_entry run w.registry) ≡ false
    → A
tracked-not_running run t w found same live free =
    let here : get_entry run w.registry ≡ some t.id =
      ap (λ r. get_entry r w.registry) ((eq_iff run t.run_id).0 same) ∙ found in
    cc (live, rw here at free)

start-IsTracked :
    (run : String) (w : Watchers) → IsTracked w → IsTracked (start_progress_watcher run w)
unfolding start_progress_watcher
start-IsTracked run w h = elim (Bool-cases (is_running w.tasks (get_entry run w.registry))) [
  | inl e ↦ rw e h
  | inr e ↦ rw e (
    (omega arith, h.0),
    (
      λ live. rw (get_entry-set_entry run run w.next w.registry, eq_refl run) refl,
      All-mp _ _
          (λ t both live. elim (Bool-cases (str_eq run t.run_id)) [
            | inr other ↦
                rw (get_entry-set_entry t.run_id run w.next w.registry, other) (both.0 live)
            | inl same ↦ tracked-not_running run t w (both.0 live) same (both.1 live) e
          ])
          w.tasks (All-pair _ _ w.tasks h.1 (live-is_live w.next w.tasks h.0)),
    ),
  )
]

finish-IsTracked : (id : ℕ) (w : Watchers) → IsTracked w → IsTracked (finish id w)
unfolding finish
finish-IsTracked id w h = (
  IsBelow-end_task (λ t. t.id == id) w.next w.tasks h.0,
  All-end_task _ _ (λ t. t.id == id) (λ t live spared tracked. tracked) w.tasks h.1,
)

-- The callback of a task that is done takes no other task out of the registry.
cleanup-kept :
    (id : ℕ) (run : String) (t : WatcherTask) (w : Watchers)
    → is_live id w.tasks ≡ false
    → get_entry t.run_id w.registry ≡ some t.id
    → is_live t.id w.tasks ≡ true
    → get_entry t.run_id (cleanup id run w).registry ≡ some t.id
unfolding cleanup
cleanup-kept id run t w free found live =
    elim (Bool-cases (is_task id (get_entry run w.registry))) [
      | inr e ↦ rw e found
      | inl e ↦ elim (Bool-cases (str_eq run t.run_id)) [
        | inr other ↦ rw (e, get_entry-pop_entry t.run_id run w.registry, other) found
        | inl same ↦
            let here : get_entry run w.registry ≡ some t.id =
              ap (λ r. get_entry r w.registry) ((eq_iff run t.run_id).0 same) ∙ found in
            let equal : (t.id == id) ≡ true = rw here at e in
            let ids : t.id ≡ id = ground (arith, equal) in cc (live, free, ids)
      ]
    ]

cleanup-IsTracked :
    (id : ℕ) (run : String) (w : Watchers)
    → is_live id w.tasks ≡ false
    → IsTracked w
    → IsTracked (cleanup id run w)
unfolding cleanup
cleanup-IsTracked id run w free h = (
  h.0,
  All-mp _ _ (λ t both live. cleanup-kept id run t w free (both.0 live) (both.1 live)) w.tasks
      (All-pair _ _ w.tasks h.1 (live-is_live w.next w.tasks h.0)),
)

-- stop_progress_watchers ends every task that the registry has, so no task is left that runs.
pub stop-ends :
    (w : Watchers) → IsTracked w → All (λ t. t.done ≡ true) (stop_progress_watchers w).tasks
unfolding stop_progress_watchers
stop-ends w h =
    All-mp (λ t. t.done ≡ false → ⊥) _
      (λ t ended. elim (Bool-cases t.done) [ inl e ↦ e | inr e ↦ absurd (ended e) ]) _
      (All-end_task (λ t. get_entry t.run_id w.registry ≡ some t.id) (λ t. ⊥)
        (λ t. has_task t.id w.registry)
        (λ t live spared tracked. cc (spared, get_entry-has_task t.run_id t.id w.registry tracked))
        w.tasks h.1)

stop-IsTracked : (w : Watchers) → IsTracked w → IsTracked (stop_progress_watchers w)
unfolding stop_progress_watchers
stop-IsTracked w h = (
  IsBelow-end_task (λ t. has_task t.id w.registry) w.next w.tasks h.0,
  All-mp _ _ (λ t ended live. cc (ended, live)) _ (stop-ends w h),
)

deliver-IsTracked : (run : String) (w : Watchers) → IsTracked w → IsTracked (deliver run w)
unfolding deliver
deliver-IsTracked run w h = h

step-IsTracked : {v w : Watchers} → WatchersStep v w → IsTracked v → IsTracked w
step-IsTracked (starts w run) h = start-IsTracked run w h
step-IsTracked (ends w id) h = finish-IsTracked id w h
step-IsTracked (delivers w run) h = deliver-IsTracked run w h
step-IsTracked (cleans w id run free) h = cleanup-IsTracked id run w free h
step-IsTracked (stops w) h = stop-IsTracked w h

pub IsReached-IsTracked : {w : Watchers} → IsReached w → IsTracked w
IsReached-IsTracked at_start = (tt, tt)
IsReached-IsTracked (behind r s) = step-IsTracked s (IsReached-IsTracked r)

-- The test for a task of a run that is not done.
abbrev pub watches : String → WatcherTask → Bool
watches run t = not t.done && str_eq t.run_id run

-- The registry has the task for the run.
watches-registered :
    (run : String) (m : List (String × ℕ)) (t : WatcherTask)
    → (t.done ≡ false → get_entry t.run_id m ≡ some t.id)
    → watches run t ≡ true
    → get_entry run m ≡ some t.id
watches-registered run m t h e =
    let live : t.done ≡ false = ground (arith, e) in
    let same : t.run_id ≡ run = (eq_iff t.run_id run).0 (ground (arith, e)) in
    ap (λ r. get_entry r m) (sym same) ∙ h live

no_watch-count :
    (run : String) (id n : ℕ) (m : List (String × ℕ)) (ts : List WatcherTask)
    → get_entry run m ≡ some id
    → n ≤ id
    → IsBelow n ts
    → All (λ t. t.done ≡ false → get_entry t.run_id m ≡ some t.id) ts
    → count_where (watches run) ts ≡ 0
unfolding count_where
no_watch-count run id n m [] found le below h = refl
no_watch-count run id n m (t ∷ ts) found le below h = elim (Bool-cases (watches run t)) [
  | inl e ↦
      let same : t.id ≡ id = cc (watches-registered run m t h.0 e, found) in
      absurd (omega (arith, same, le, below.0))
  | inr e ↦ rw e (no_watch-count run id t.id m ts found (omega (arith, le, below.0)) below.1 h.1)
]

watch-count :
    (run : String) (n : ℕ) (m : List (String × ℕ)) (ts : List WatcherTask)
    → IsBelow n ts
    → All (λ t. t.done ≡ false → get_entry t.run_id m ≡ some t.id) ts
    → count_where (watches run) ts ≤ 1
unfolding count_where
watch-count run n m [] below h = omega arith
watch-count run n m (t ∷ ts) below h = elim (Bool-cases (watches run t)) [
  | inl e ↦
      let none_left : count_where (watches run) ts ≡ 0 =
        no_watch-count run t.id t.id m ts (watches-registered run m t h.0 e) (omega arith) below.1
          h.1 in
      rw e (omega (arith, none_left))
  | inr e ↦ rw e (watch-count run t.id m ts below.1 h.1)
]

-- In every state that starts, ends, callbacks, deliveries and a stop of progress watchers reach in
-- any order, where nothing starts a watcher while a stop waits, no run has two watchers that run.
pub one_watcher :
    (w : Watchers) (run : String) → IsReached w → count_where (watches run) w.tasks ≤ 1
one_watcher w run r =
    let h = IsReached-IsTracked r in watch-count run w.next w.registry w.tasks h.0 h.1
