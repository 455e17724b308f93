-- ===== src/Domain/Runs.antt =====
-- src/mergemate/domain/runs/entities.py and repository.py: the entities and the decisions that
-- the repositories return. A `datetime` is the number of its reading of the clock, and an id of a
-- chat or a user, which may be negative, is a ChatId.
use merge_mate.Base.{ℕ, String, Bool, true, false, ◌≡◌, arith, Option, ◌==◌}
use merge_mate.Domain.Status.{RunStatus, RunJobStatus, RunJobType}

-- Python's `int` where only equality is asked: `negative n` is -(n + 1).
pub data ChatId : Type 0 where
  positive negative : ℕ → ChatId

abbrev pub chat_eq : ChatId → ChatId → Bool
chat_eq (positive a) (positive b) = a == b
chat_eq (negative a) (negative b) = a == b
chat_eq _ _ = false

pub chat_eq_refl : (chat : ChatId) → chat_eq chat chat ≡ true
chat_eq_refl (positive a) = ground arith
chat_eq_refl (negative a) = ground arith

pub record AgentRun : Type 0 where
  pub run_id : String
  pub chat_id : ChatId
  pub user_id : ChatId
  pub agent_name : String
  pub workflow : String
  pub status : RunStatus
  pub current_stage : String
  pub prompt : String
  pub estimate_seconds : ℕ
  pub plan_text : Option String
  pub design_text : Option String
  pub test_text : Option String
  pub review_text : Option String
  pub review_iterations : ℕ
  pub approved : Bool
  pub result_text : Option String
  pub error_text : Option String
  pub created_at : ℕ
  pub updated_at : ℕ
  pub repo_name : Option String

pub record RunJob : Type 0 where
  pub job_id : String
  pub run_id : String
  pub job_type : RunJobType
  pub status : RunJobStatus
  pub attempt_count : ℕ
  pub lease_owner : Option String
  pub lease_expires_at : Option ℕ
  pub last_heartbeat_at : Option ℕ
  pub error_text : Option String
  pub queued_at : ℕ
  pub started_at : Option ℕ
  pub finished_at : Option ℕ
  pub updated_at : ℕ

-- `ApprovalDecision` and `StatusUpdateDecision` have the same two fields.
pub record Decision : Type 0 where
  pub run : Option AgentRun
  pub transitioned : Bool

pub record QueuedRunJobDecision : Type 0 where
  pub job : Option RunJob
  pub created : Bool
