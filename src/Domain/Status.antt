-- ===== src/Domain/Status.antt =====
-- src/mergemate/domain/shared/value_objects.py: the statuses and stages of runs and jobs. An
-- enumeration is a data type, `value` is the text that a row of the database holds, and
-- `of_value` is the constructor call `RunStatus(text)`, which is `none` where Python raises.
use merge_mate.Base.{
  String, ◌≡◌, refl, Bool, true, false, Option, none, some, arith, str_eq, if◌then◌else◌,
}
use Prim.Native.String.{◌++◌ as text_append}

pub data RunStatus : Type 0 where
  awaiting_confirmation queued running waiting_tool completed failed cancelled : RunStatus

pub RunStatus-discrete : Discrete RunStatus
RunStatus-discrete = hlevel

unfoldable pub value : RunStatus → String
value awaiting_confirmation = "awaiting_confirmation"
value queued = "queued"
value running = "running"
value waiting_tool = "waiting_tool"
value completed = "completed"
value failed = "failed"
value cancelled = "cancelled"

unfoldable pub of_value : String → Option RunStatus
of_value t =
    if str_eq t "awaiting_confirmation"
    then some awaiting_confirmation
    else if str_eq t "queued"
    then some queued
    else if str_eq t "running"
    then some running
    else if str_eq t "waiting_tool"
    then some waiting_tool
    else if str_eq t "completed"
    then some completed
    else if str_eq t "failed"
    then some failed
    else if str_eq t "cancelled"
    then some cancelled
    else none

-- The status that is read back from the text of a status is that status.
pub of_value-value : (s : RunStatus) → of_value (value s) ≡ some s
unfolding of_value value
of_value-value awaiting_confirmation = refl
of_value-value _ = refl

-- `a == b` on two statuses.
abbrev pub same : RunStatus → RunStatus → Bool
same awaiting_confirmation awaiting_confirmation = true
same queued queued = true
same running running = true
same waiting_tool waiting_tool = true
same completed completed = true
same failed failed = true
same cancelled cancelled = true
same _ _ = false

pub same→eq : (a b : RunStatus) → same a b ≡ true → a ≡ b
same→eq a b h = ground arith

pub same_refl : (a : RunStatus) → same a a ≡ true
same_refl a = ground arith

-- `status in RunStatus.terminal_statuses()`
abbrev pub is_terminal : RunStatus → Bool
is_terminal completed = true
is_terminal failed = true
is_terminal cancelled = true
is_terminal _ = false

-- `status in RunStatus.skip_process_statuses()`
abbrev pub is_skipped : RunStatus → Bool
is_skipped completed = true
is_skipped failed = true
is_skipped cancelled = true
is_skipped running = true
is_skipped waiting_tool = true
is_skipped _ = false

-- `RunStage`; a run's `current_stage` is a text, because tools and plugins set their own.
pub data RunStage : Type 0 where
  planning awaiting_user_confirmation queued_for_execution retrieve_context : RunStage
  execution design implementation testing review internal_replanning done : RunStage

unfoldable pub stage_value : RunStage → String
stage_value planning = "planning"
stage_value awaiting_user_confirmation = "awaiting_user_confirmation"
stage_value queued_for_execution = "queued_for_execution"
stage_value retrieve_context = "retrieve_context"
stage_value execution = "execution"
stage_value design = "design"
stage_value implementation = "implementation"
stage_value testing = "testing"
stage_value review = "review"
stage_value internal_replanning = "internal_replanning"
stage_value done = "completed"

pub data RunJobStatus : Type 0 where
  queued running completed failed : RunJobStatus

abbrev pub job_same : RunJobStatus → RunJobStatus → Bool
job_same queued queued = true
job_same running running = true
job_same completed completed = true
job_same failed failed = true
job_same _ _ = false

unfoldable pub job_value : RunJobStatus → String
job_value queued = "queued"
job_value running = "running"
job_value completed = "completed"
job_value failed = "failed"

pub data RunJobType : Type 0 where
  plan_run execute_run : RunJobType

abbrev pub type_same : RunJobType → RunJobType → Bool
type_same plan_run plan_run = true
type_same execute_run execute_run = true
type_same _ _ = false

-- `tool_stage`
unfoldable pub tool_stage : String → String
tool_stage name = text_append "tool:" name
