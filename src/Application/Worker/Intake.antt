-- ===== src/Application/Worker/Intake.antt =====
-- The queue and the tasks of the worker together: no job that was taken is skipped or forgotten.
use merge_mate.Base.{
  suc, ◌+◌, ◌-◌, String, ◌≡◌, refl, sym, ap, ◌∙◌, Bool, true, false, ◌&&◌, ◌||◌, some, List, [],
  ◌∷◌, elem, str_eq, eq_refl, eq_iff, length, Bool-cases, inl, inr, arith,
}
use mathlib.Core.Path.{subst}
use mathlib.Core.Option.{some-injective}
use merge_mate.Queue.Members.{
  IsDistinct, elem-append, IsDistinct-snoc, elem-discard, IsDistinct-discard, length-discard,
  length-snoc,
}
use merge_mate.Queue
use merge_mate.Queue.{LocalQueue, discard, dequeue, acknowledge, empty_queue}
use merge_mate.Application.Worker.{Tasks, enqueue, task_done}

-- The pending ids are those of the items and of the running tasks, each once, and the count of the
-- unfinished items is that of both.
pub record IsAligned (q : LocalQueue) (t : Tasks) : Type 0 where
  pub pending_ids : (a : String) → elem a q.pending ≡ elem a q.items || elem a t.active_job_ids
  pub apart : (a : String) → elem a q.items && elem a t.active_job_ids ≡ false
  pub items_once : IsDistinct q.items
  pub active_once : IsDistinct t.active_job_ids
  pub counted : q.unfinished ≡ length q.items + length t.active_job_ids

-- What the queue and the worker do: a dispatch puts an id, the consumer takes one and starts its
-- task, and a task ends.
pub data Step : LocalQueue × Tasks → LocalQueue × Tasks → Type 0 where
  put : (id : String) (q : LocalQueue) (t : Tasks) → Step (q, t) ((Queue.enqueue id q).1, t)
  take :
      (id : String) (rest : List String) (created : Bool) (q : LocalQueue) (t t' : Tasks)
      → q.items ≡ id ∷ rest
      → enqueue id t ≡ some (created, t')
      → Step (q, t) ((dequeue q).1, t')
  finish :
      (id : String) (q : LocalQueue) (t : Tasks)
      → elem id t.active_job_ids ≡ true
      → Step (q, t) ((task_done id t q).1, (task_done id t q).0)

abbrev pub IsAlignedPair : LocalQueue × Tasks → Type 0
IsAlignedPair (q, t) = IsAligned q t

put-IsAligned :
    (id : String) (q : LocalQueue) (t : Tasks) → IsAligned q t → IsAligned (Queue.enqueue id q).1 t
unfolding Queue.enqueue elem
put-IsAligned id q t h = elim (Bool-cases (elem id q.pending)) [
  | inl y ↦ rw y h
  | inr n ↦ rw n (record {
    pending_ids = λ a. rw (elem-append a q.items (id ∷ [])) (ground (arith, h.pending_ids a));
    apart = λ a.
        rw (elem-append a q.items (id ∷ []))
          (ground (arith, h.apart a, h.pending_ids a, h.pending_ids id, eq_iff id a));
    items_once = IsDistinct-snoc id q.items (ground (arith, h.pending_ids id)) h.items_once;
    active_once = h.active_once;
    counted = rw (length-snoc q.items id) (ground (arith, h.counted));
  })
]

-- In an aligned state of a worker that does not stop, the job that the consumer takes from the
-- queue has no task yet, so the worker creates one for it.
pub take-starts :
    (id : String) (rest : List String) (q : LocalQueue) (t : Tasks)
    → IsAligned q t
    → q.items ≡ id ∷ rest
    → t.stopping ≡ false
    → enqueue id t ≡ some (true, record t { active_job_ids = id ∷ t.active_job_ids })
unfolding enqueue elem
take-starts id rest q t h e s =
    let here : elem id q.items ≡ true = rw e (rw (eq_refl id) refl) in
    let free : elem id t.active_job_ids ≡ false = ground (arith, h.apart id) in rw (s, free) refl

take-IsAligned :
    (id : String) (rest : List String) (q : LocalQueue) (t : Tasks)
    → IsAligned q t
    → q.items ≡ id ∷ rest
    → IsAligned (dequeue q).1 (record t { active_job_ids = id ∷ t.active_job_ids })
unfolding dequeue elem
take-IsAligned id rest q t h e =
    let step : dequeue q ≡ (some id, record q { items = rest }) = rw (dequeue, e) refl in
    let members : (a : String) → elem a q.items ≡ str_eq id a || elem a rest = λ a. rw e refl in
    let first : IsDistinct (id ∷ rest) = subst IsDistinct e h.items_once in
    let total : length q.items ≡ suc (length rest) = rw e refl in
    rw step (record {
      pending_ids = λ a. ground (arith, h.pending_ids a, members a);
      apart = λ a. ground (arith, h.apart a, members a, eq_iff id a, first.0);
      items_once = first.1;
      active_once = (ground (arith, h.apart id, members id, eq_refl id), h.active_once);
      counted = ground (arith, h.counted, total);
    })

acknowledged :
    (id : String) (q : LocalQueue) (t : Tasks)
    → IsAligned q t
    → elem id t.active_job_ids ≡ true
    → acknowledge id q ≡ (
      false,
      record q {
        pending = discard id q.pending;
        unfinished = length q.items + length (discard id t.active_job_ids);
      },
    )
unfolding acknowledge
acknowledged id q t h e =
    let total : q.unfinished ≡ suc (length q.items + length (discard id t.active_job_ids)) =
      ground (arith, h.counted, length-discard id t.active_job_ids h.active_once e) in
    let left : q.unfinished - 1 ≡ length q.items + length (discard id t.active_job_ids) =
      ground (arith, total) in
    rw (total, acknowledge)
      (ap (λ n. (false, record q { pending = discard id q.pending; unfinished = n })) left)

-- In an aligned state, the end of a running task acknowledges its job without an error, the job is
-- no longer pending, and a dispatch may put it again.
pub task_done-acknowledges :
    (id : String) (q : LocalQueue) (t : Tasks)
    → IsAligned q t
    → elem id t.active_job_ids ≡ true
    → ((acknowledge id q).0 ≡ false)
      × (elem id (acknowledge id q).1.pending ≡ false)
      × ((Queue.enqueue id (acknowledge id q).1).0 ≡ true)
unfolding Queue.enqueue
task_done-acknowledges id q t h e =
    let gone : elem id (discard id q.pending) ≡ false =
      ground (arith, elem-discard id id q.pending, eq_refl id) in
    rw (acknowledged id q t h e) (refl, gone, rw gone refl)

finish-IsAligned :
    (id : String) (q : LocalQueue) (t : Tasks)
    → IsAligned q t
    → elem id t.active_job_ids ≡ true
    → IsAligned (task_done id t q).1 (task_done id t q).0
unfolding task_done
finish-IsAligned id q t h e = rw (acknowledged id q t h e) (record {
  pending_ids = λ a.
      rw (elem-discard id a q.pending, elem-discard id a t.active_job_ids)
        (ground (arith, h.pending_ids a, h.apart a, h.apart id, eq_iff id a));
  apart = λ a. rw (elem-discard id a t.active_job_ids) (ground (arith, h.apart a));
  items_once = h.items_once;
  active_once = IsDistinct-discard id t.active_job_ids h.active_once;
  counted = refl;
})

enqueue-stopping :
    (id : String) (t t' : Tasks) (created : Bool)
    → enqueue id t ≡ some (created, t')
    → t.stopping ≡ false
unfolding enqueue
enqueue-stopping id t t' created h = elim (Bool-cases t.stopping) [
  | inl y ↦ cc (rw (y, enqueue) at h)
  | inr n ↦ n
]

Step-IsAligned : (p p' : LocalQueue × Tasks) → Step p p' → IsAlignedPair p → IsAlignedPair p'
Step-IsAligned _ _ (put id q t) h = put-IsAligned id q t h
Step-IsAligned _ _ (take id rest created q t t' e start) h =
    let s = enqueue-stopping id t t' created start in
    let started = take-starts id rest q t h e s in
    let same = some-injective _ _ (sym started ∙ start) in
    subst (λ x. IsAligned (dequeue q).1 x) (ap (λ (p : Bool × Tasks). p.1) same)
      (take-IsAligned id rest q t h e)
Step-IsAligned _ _ (finish id q t e) h = finish-IsAligned id q t h e

-- What the steps lead to from the start of the worker.
pub data IsReached : LocalQueue × Tasks → Type 0 where
  begin : IsReached (empty_queue, record { active_job_ids = []; stopping = false })
  step : (p p' : LocalQueue × Tasks) → Step p p' → IsReached p → IsReached p'

-- In every state that the worker and its queue reach from their start by dispatches, takes and
-- ends of tasks in any order, the pending ids are those of the items and of the running tasks, no
-- id is there twice, and the count of unfinished items is the number of both.
pub IsReached-IsAligned : (p : LocalQueue × Tasks) → IsReached p → IsAlignedPair p
unfolding elem
IsReached-IsAligned _ begin = record {
  pending_ids = λ a. refl;
  apart = λ a. refl;
  items_once = tt;
  active_once = tt;
  counted = refl;
}
IsReached-IsAligned _ (step p p' move before) =
    Step-IsAligned p p' move (IsReached-IsAligned p before)
