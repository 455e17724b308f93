-- ===== src/Persistence/Learnings.antt =====
-- src/mergemate/infrastructure/persistence/sqlite_repositories.py, `SQLiteLearningRepository`.
pub mod Groups
use Prim.Native.String.{compare}
use Prim.Native.Nat.{Ordering}
use merge_mate.Base.{
  ℕ, String, Bool, true, false, Option, none, some, List, [], ◌∷◌, ◌++◌, str_eq, if◌then◌else◌, leb,
  take, select,
}
use merge_mate.Domain.Runs.{ChatId, chat_eq}
use merge_mate.Persistence.Recent.{recent}

-- A row of `learning_entries`.
pub record LearningEntry : Type 0 where
  pub chat_id : ChatId
  pub workflow : String
  pub prompt : String
  pub result_excerpt : String
  pub learning_lessons : Option String
  pub created_at : ℕ

abbrev pub entry_in : ChatId → LearningEntry → Bool
entry_in chat e = chat_eq e.chat_id chat

abbrev pub entry_time : LearningEntry → ℕ
entry_time e = e.created_at

-- `record`
unfoldable pub record_entry :
    ChatId → String → String → String → Option String → ℕ → List LearningEntry → List LearningEntry
record_entry chat workflow prompt excerpt lessons now rows =
    rows
    ++ record {
      chat_id = chat;
      workflow = workflow;
      prompt = prompt;
      result_excerpt = excerpt;
      learning_lessons = lessons;
      created_at = now;
    }
      ∷ []

unfoldable pub list_recent : ChatId → ℕ → List LearningEntry → List LearningEntry
list_recent chat limit rows = recent entry_time (entry_in chat) limit rows

-- `ORDER BY workflow, created_at DESC`
abbrev pub precedes : LearningEntry → LearningEntry → Bool
precedes a b = elim (compare a.workflow b.workflow) [
  | Ordering.lt ↦ true
  | Ordering.eq ↦ leb b.created_at a.created_at
  | Ordering.gt ↦ false
]

unfoldable pub insert_entry : LearningEntry → List LearningEntry → List LearningEntry
insert_entry e [] = e ∷ []
insert_entry e (x ∷ xs) = if precedes e x then e ∷ x ∷ xs else x ∷ insert_entry e xs

unfoldable pub by_workflow : List LearningEntry → List LearningEntry
unfolding insert_entry
by_workflow [] = []
by_workflow (e ∷ es) = insert_entry e (by_workflow es)

-- The dictionary `groups`, in the order in which its keys came.
abbrev pub Grouped : Type 0
Grouped = List (String × List LearningEntry)

unfoldable pub add_entry : LearningEntry → Grouped → Grouped
add_entry e [] = (e.workflow, e ∷ []) ∷ []
add_entry e ((w, es) ∷ rest) =
    if str_eq w e.workflow then (w, es ++ e ∷ []) ∷ rest else (w, es) ∷ add_entry e rest

unfoldable pub group_entries : Grouped → List LearningEntry → Grouped
unfolding add_entry
group_entries g [] = g
group_entries g (e ∷ es) = group_entries (add_entry e g) es

-- `groups.pop(workflow, [])`: the entries of the key, and the other groups.
unfoldable pub pop : String → Grouped → List LearningEntry × Grouped
pop workflow [] = ([], [])
pop workflow ((w, es) ∷ rest) =
    let (found, others) = pop workflow rest in
    if str_eq w workflow then (es, rest) else (found, (w, es) ∷ others)

unfoldable pub first_of_each : ℕ → Grouped → List LearningEntry
first_of_each limit [] = []
first_of_each limit ((w, es) ∷ rest) = take limit es ++ first_of_each limit rest

unfoldable pub list_grouped_by_workflow :
    ChatId → String → ℕ → ℕ → List LearningEntry → List LearningEntry
unfolding by_workflow group_entries pop first_of_each
list_grouped_by_workflow chat current same_limit other_limit rows =
    let (mine, others) =
      pop current (group_entries [] (by_workflow (select (entry_in chat) rows))) in
    take same_limit mine ++ first_of_each other_limit others
