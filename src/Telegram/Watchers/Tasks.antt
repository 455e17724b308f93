-- ===== src/Telegram/Watchers/Tasks.antt =====
-- The registry and the list of tasks of src/mergemate/interfaces/telegram/progress_notifier.py.
use merge_mate.Base.{
  ℕ, ◌<◌, String, Bool, true, false, none, some, List, [], ◌∷◌, ◌≡◌, refl, str_eq, eq_iff,
  if◌then◌else◌, select, All, All-mp, All-pair, arith,
}
use merge_mate.Config.{get_entry}
use merge_mate.Telegram.Watchers.{WatcherTask, set_entry, pop_entry, is_live, end_task, has_task}

pub get_entry-set_entry :
    (k j : String) (v : ℕ) (m : List (String × ℕ))
    → get_entry k (set_entry j v m) ≡ (if str_eq j k then some v else get_entry k m)
unfolding get_entry set_entry
get_entry-set_entry k j v [] = refl
get_entry-set_entry k j v ((i, w) ∷ m) =
    ground (arith, eq_iff j k, eq_iff i j, eq_iff i k, get_entry-set_entry k j v m)

pub get_entry-pop_entry :
    (k j : String) (m : List (String × ℕ))
    → get_entry k (pop_entry j m) ≡ (if str_eq j k then none else get_entry k m)
unfolding get_entry pop_entry select
get_entry-pop_entry k j [] = ground arith
get_entry-pop_entry k j ((i, w) ∷ m) =
    ground (arith, eq_iff j k, eq_iff i j, eq_iff i k, get_entry-pop_entry k j m)

pub get_entry-has_task :
    (k : String) (id : ℕ) (m : List (String × ℕ)) → get_entry k m ≡ some id → has_task id m ≡ true
unfolding get_entry has_task
get_entry-has_task k id [] h = cc
get_entry-has_task k id ((i, w) ∷ m) h = ground (arith, h, get_entry-has_task k id m)

-- The ids fall along the list.
abbrev pub IsBelow : ℕ → List WatcherTask → Type 0
IsBelow n [] = Unit
IsBelow n (t ∷ ts) = (t.id < n) × IsBelow t.id ts

IsBelow-All : (n : ℕ) (ts : List WatcherTask) → IsBelow n ts → All (λ t. t.id < n) ts
IsBelow-All n [] h = tt
IsBelow-All n (t ∷ ts) h =
    (h.0, All-mp _ _ (λ u below. omega (arith, h.0, below)) ts (IsBelow-All t.id ts h.1))

pub IsBelow-end_task :
    (p : WatcherTask → Bool) (n : ℕ) (ts : List WatcherTask)
    → IsBelow n ts
    → IsBelow n (end_task p ts)
unfolding end_task
IsBelow-end_task p n [] h = tt
IsBelow-end_task p n (t ∷ ts) h = (h.0, IsBelow-end_task p t.id ts h.1)

pub live-is_live :
    (n : ℕ) (ts : List WatcherTask)
    → IsBelow n ts
    → All (λ t. t.done ≡ false → is_live t.id ts ≡ true) ts
unfolding is_live
live-is_live n [] h = tt
live-is_live n (t ∷ ts) h = (
  λ e. ground (arith, e),
  All-mp _ _ (λ u both e. ground (arith, both.0, both.1 e)) ts
      (All-pair _ _ ts (IsBelow-All t.id ts h.1) (live-is_live t.id ts h.1)),
)
