-- ===== src/Persistence/RunRepository.antt =====
-- `SQLiteRunRepository`: the table `agent_runs` is the list of its rows in the order of their
-- rowids. An operation takes the table and the reading of `datetime.now` and returns the table
-- after it. A statement `UPDATE … WHERE …` is `update_where`, with the `WHERE` as the test, and
-- `cursor.rowcount` is `count_where` on the table before it.
pub mod Reads
pub mod Writes
pub mod Frame
use merge_mate.Base.{
  ℕ, ◌<◌, String, Bool, true, false, ◌&&◌, ◌||◌, not, Option, none, some, List, [], ◌∷◌, ◌++◌,
  str_eq, by_key, leb, ltb, if◌then◌else◌, find, count_where, update_where, select, take,
}
use merge_mate.Domain.Status.{
  RunStatus, RunStage, same, is_terminal, stage_value, awaiting_confirmation, queued,
  awaiting_user_confirmation, queued_for_execution,
}
use merge_mate.Domain.Runs.{AgentRun, Decision, ChatId, chat_eq}

abbrev pub Table : Type 0
Table = List AgentRun

abbrev pub keyed : String → AgentRun → Bool
keyed = by_key (λ r. r.run_id)

-- `value if value is not None else old`
abbrev pub or_text : Option String → Option String → Option String
or_text none old = old
or_text (some t) old = some t

-- `stage or old`: the empty text is false too.
unfoldable pub or_stage : Option String → String → String
or_stage none old = old
or_stage (some t) old = if str_eq t "" then old else t

-- `or_stage` for a member of `RunStage`, none of which is empty.
abbrev pub stage : RunStage → Option String
stage s = some (stage_value s)

unfoldable pub get : String → Table → Option AgentRun
get id t = find (keyed id) t

-- `none` stands for the `IntegrityError` of the primary key.
unfoldable pub create : AgentRun → Table → Option Table
create r t = elim (get r.run_id t) [ none ↦ some (t ++ r ∷ []) | some _ ↦ none ]

-- `ORDER BY created_at DESC`, rows of one time in the order of their rowids.
unfoldable pub insert_newest : AgentRun → Table → Table
insert_newest r [] = r ∷ []
insert_newest r (x ∷ t) = if leb x.created_at r.created_at then r ∷ x ∷ t else x ∷ insert_newest r t

unfoldable pub newest_first : Table → Table
newest_first [] = []
newest_first (r ∷ t) = insert_newest r (newest_first t)

unfoldable pub list_for_chat : ChatId → Option ℕ → Table → Table
list_for_chat chat none t = newest_first (select (λ r. chat_eq r.chat_id chat) t)
list_for_chat chat (some n) t = take n (newest_first (select (λ r. chat_eq r.chat_id chat) t))

unfoldable pub get_latest_non_terminal_for_chat : ChatId → Table → Option AgentRun
get_latest_non_terminal_for_chat chat t =
    find (λ r. not (is_terminal r.status)) (list_for_chat chat none t)

-- `AND status = ?`, which is added only for an expected status.
abbrev pub expected : Option RunStatus → AgentRun → Bool
expected none r = true
expected (some s) r = same r.status s

-- The keyword arguments of `try_update_status` and `update_status`.
pub record StatusUpdate : Type 0 where
  pub status : RunStatus
  pub expected_current_status : Option RunStatus
  pub current_stage : Option String
  pub result_text : Option String
  pub error_text : Option String

-- The texts that are not given come from the row that was read first, not from the row written.
unfoldable pub status_row : StatusUpdate → ℕ → AgentRun → AgentRun → AgentRun
status_row u now existing r = record r {
  status = u.status;
  current_stage = or_stage u.current_stage existing.current_stage;
  result_text = or_text u.result_text existing.result_text;
  error_text = or_text u.error_text existing.error_text;
  updated_at = now;
}

update_status_of : AgentRun → StatusUpdate → ℕ → String → Table → Decision × Table
update_status_of existing u now id t =
    let hit = λ (r : AgentRun). keyed id r && expected u.expected_current_status r in
    let t' = update_where hit (status_row u now existing) t in
    (record { run = get id t'; transitioned = ltb 0 (count_where hit t) }, t')

unfoldable pub try_update_status : StatusUpdate → ℕ → String → Table → Decision × Table
unfolding update_status_of
try_update_status u now id t = elim (get id t) [
  | none ↦ (record { run = none; transitioned = false }, t)
  | some existing ↦ update_status_of existing u now id t
]

unfoldable pub update_status : StatusUpdate → ℕ → String → Table → Option AgentRun × Table
update_status u now id t = let (d, t') = try_update_status u now id t in (d.run, t')

unfoldable pub plan_row :
    String → Option String → Option String → ℕ → AgentRun → AgentRun → AgentRun
plan_row plan prompt current_stage now existing r = record r {
  plan_text = some plan;
  prompt = elim prompt [ none ↦ existing.prompt | some p ↦ p ];
  current_stage = or_stage current_stage (stage_value awaiting_user_confirmation);
  updated_at = now;
}

unfoldable pub update_plan :
    String → Option String → Option String → ℕ → String → Table → Option AgentRun × Table
update_plan plan prompt current_stage now id t = elim (get id t) [
  | none ↦ (none, t)
  | some existing ↦
      let t' = update_where (keyed id) (plan_row plan prompt current_stage now existing) t in
      (get id t', t')
]

-- The statuses that `approve` accepts.
abbrev pub approvable : RunStatus → Bool
approvable s = same s awaiting_confirmation || same s queued

unfoldable pub approve_row : ℕ → AgentRun → AgentRun → AgentRun
approve_row now existing r =
    let waits = same existing.status awaiting_confirmation in
    record r {
      approved = true;
      status = if waits then queued else existing.status;
      current_stage = if waits then stage_value queued_for_execution else existing.current_stage;
      updated_at = now;
    }

approve_of : AgentRun → ℕ → String → Table → Decision × Table
approve_of existing now id t =
    let hit = λ (r : AgentRun). keyed id r && (not r.approved && same r.status existing.status) in
    let t' = update_where hit (approve_row now existing) t in
    if existing.approved || not (approvable existing.status)
    then (record { run = some existing; transitioned = false }, t)
    else (record { run = get id t'; transitioned = ltb 0 (count_where hit t) }, t')

unfoldable pub approve : ℕ → String → Table → Decision × Table
unfolding approve_of
approve now id t = elim (get id t) [
  | none ↦ (record { run = none; transitioned = false }, t)
  | some existing ↦ approve_of existing now id t
]

-- The keyword arguments of `save_artifacts`; others, such as `lesson_text`, are dropped there.
pub record Artifacts : Type 0 where
  pub current_stage : Option String
  pub design_text : Option String
  pub test_text : Option String
  pub review_text : Option String
  pub result_text : Option String
  pub review_iterations : Option ℕ

unfoldable pub artifact_row : Artifacts → ℕ → AgentRun → AgentRun → AgentRun
artifact_row a now existing r = record r {
  current_stage = or_stage a.current_stage existing.current_stage;
  design_text = or_text a.design_text existing.design_text;
  test_text = or_text a.test_text existing.test_text;
  review_text = or_text a.review_text existing.review_text;
  result_text = or_text a.result_text existing.result_text;
  review_iterations = elim a.review_iterations [ none ↦ existing.review_iterations | some n ↦ n ];
  updated_at = now;
}

unfoldable pub save_artifacts : Artifacts → ℕ → String → Table → Option AgentRun × Table
save_artifacts a now id t = elim (get id t) [
  | none ↦ (none, t)
  | some existing ↦
      let t' = update_where (keyed id) (artifact_row a now existing) t in (get id t', t')
]
