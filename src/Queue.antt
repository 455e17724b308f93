-- ===== src/Queue.antt =====
-- src/mergemate/infrastructure/queue/local_queue.py. Of asyncio.Queue the model keeps the items and
-- the count of unfinished tasks, which `task_done` may not take below zero.
pub mod Members
use merge_mate.Base.{
  ℕ, zero, suc, ◌+◌, ◌-◌, String, Bool, true, false, Option, none, some, List, [], ◌∷◌, ◌++◌,
  str_eq, if◌then◌else◌, elem,
}

pub record LocalQueue : Type 0 where
  pub items : List String
  pub pending : List String
  pub unfinished : ℕ

-- `set.discard`
unfoldable pub discard : String → List String → List String
discard a [] = []
discard a (x ∷ xs) = let rest = discard a xs in if str_eq x a then rest else x ∷ rest

abbrev pub empty_queue : LocalQueue
empty_queue = record { items = []; pending = []; unfinished = 0 }

unfoldable pub enqueue : String → LocalQueue → Bool × LocalQueue
enqueue id q = if elem id q.pending then (false, q) else (
  true,
  record { items = q.items ++ id ∷ []; pending = id ∷ q.pending; unfinished = q.unfinished + 1 },
)

-- `none` while there is no item: the caller waits.
unfoldable pub dequeue : LocalQueue → Option String × LocalQueue
dequeue q = elim q.items [ [] ↦ (none, q) | id ∷ rest ↦ (some id, record q { items = rest }) ]

-- The flag says whether `task_done` raised its ValueError.
unfoldable pub acknowledge : String → LocalQueue → Bool × LocalQueue
acknowledge id q =
    let left = record q { pending = discard id q.pending; unfinished = q.unfinished - 1 } in
    elim q.unfinished [
      | zero ↦ (true, record q { pending = discard id q.pending })
      | suc _ ↦ (false, left)
    ]
