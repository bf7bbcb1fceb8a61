-- ===== src/Workflow/Rows.antt =====
-- The rows that the driver reads and writes, as one store for a feature. `get_feature_aggregate` of
-- features.py reads this store; a JSON payload is a record of the keys that the program writes.
mod Payloads
use pgloom_engineering.Base.{ℕ, String, Bool, true, false, Option, List}
use pgloom_engineering.Base.Json.{Json, Fields}
use pgloom_engineering.Contracts.{PlanContract}
pub use Payloads.*

-- A task's state. The runtime stores its name as text; the driver compares it with these texts, and
-- `other` is any text that the driver does not name.
pub data TaskState : Type 0 where
  queued leased running blocked awaiting_approval done failed abandoned cancelled superseded :
      TaskState
  other : String → TaskState

-- A row of `tasks`. Instants are microseconds; the driver compares their texts, which for instants of
-- one time zone is the order of the instants. `payload` and `result` are none where they hold no dict.
pub record TaskRow : Type 0 where
  pub id : String
  pub task_type : String
  pub slot : Option String
  pub state : TaskState
  pub attempt : ℕ
  pub max_attempts : ℕ
  pub priority : ℕ
  pub payload : Option TaskPayload
  pub result : Option Fields
  pub blocker_code : Option String
  pub blocker_reason : Option String
  pub terminal_reason : Option String
  pub terminal_detail : Option String
  pub lease_owner : Option String
  pub lease_expires_at : Option ℕ
  pub updated_at : ℕ

-- The actions of `RecoveryDecisionContract`.
pub data Action : Type 0 where
  retry replan repair_task pr_feedback_task rerun_verifier retire_superseded : Action
  corrective_slice milestone_replan block_execution record_invalid_output : Action
  record_crash human_escalation : Action

-- A row of `engineering_recovery_actions`.
pub record RecoveryAction : Type 0 where
  pub task_id : Option String
  pub blocker_code : String
  pub action : Action
  pub status : String
  pub attempt : ℕ
  pub max_attempts : ℕ
  pub rationale : String
  pub outcome : String

pub record TaskContractRow : Type 0 where
  pub task_id : Option String
  pub task_slice_id : Option String
  pub status : String
  pub input_contract : Option InputContract
  pub output_contract : Option Fields

pub record PlanRow : Type 0 where
  pub id : Option String
  pub active : Bool
  pub contract : Option PlanContract

pub record Intervention : Type 0 where
  pub id : String
  pub action_type : String
  -- `payload.milestone_id` and `payload.reason`
  pub milestone_id : Option String
  pub reason : Option String

pub record Feature : Type 0 where
  pub id : String
  pub state : String
  pub feature_goal_contract : Option FeatureGoalContract
  pub agent_topology : Option Json
  pub project : Option Json

-- A row of `engineering_worker_runs`.
pub record WorkerRun : Type 0 where
  pub id : ℕ
  pub task_id : String
  pub status : String
  pub started_at : ℕ
  pub blocker_code : Option String
  pub terminal_reason : Option String
  pub terminal_detail : Option String

-- A row of `resource_locks`.
pub record ResourceLock : Type 0 where
  pub resource_key : String
  pub task_id : String

-- A row of `workers`.
pub record WorkerRow : Type 0 where
  pub id : String
  pub state : String
  pub current_task_id : Option String

pub record Store : Type 0 where
  pub feature : Option Feature
  -- `aggregate["agent_topology"]`, which has a default
  pub agent_topology : Json
  -- in the order of the aggregate: by the time at which a task was attached
  pub tasks : List TaskRow
  pub task_contracts : List TaskContractRow
  pub plan_contracts : List PlanRow
  pub recovery_actions : List RecoveryAction
  pub operator_interventions : List Intervention
  pub worker_runs : List WorkerRun
  pub resource_locks : List ResourceLock
  pub workers : List WorkerRow
  -- the input tokens of each model profile
  pub input_tokens : List ℕ
  -- the instant that `now()` answers
  pub now : ℕ

-- `TERMINAL_STATES`
abbrev pub is_terminal : TaskState → Bool
is_terminal done = true
is_terminal failed = true
is_terminal abandoned = true
is_terminal cancelled = true
is_terminal superseded = true
is_terminal _ = false

-- `BLOCKED_STATES`
abbrev pub is_blocked : TaskState → Bool
is_blocked blocked = true
is_blocked _ = false

-- `HUMAN_GATE_STATES`
abbrev pub is_human_gate : TaskState → Bool
is_human_gate awaiting_approval = true
is_human_gate _ = false

abbrev pub is_done : TaskState → Bool
is_done done = true
is_done _ = false

-- `state in {"abandoned", "superseded"}`
abbrev pub is_set_aside : TaskState → Bool
is_set_aside abandoned = true
is_set_aside superseded = true
is_set_aside _ = false

-- `int(value or 1)`
abbrev pub or_one : ℕ → ℕ
or_one ℕ.zero = 1
or_one (ℕ.suc n) = ℕ.suc n

-- A blocked task that `_recoverable_blocked_task` picks: a copy of the row with its recovery attempt.
pub record Candidate : Type 0 where
  pub task : TaskRow
  pub recovery_attempt : ℕ

-- What a step of the driver appends to `steps`.
pub record Report : Type 0 where
  pub slot : String
  pub claimed : Bool
  pub status : String
  pub task_ids : List String
  pub task_type : Option String
  pub replanned_from_task_id : Option String
  pub operator_intervention_id : Option String
  pub replan_from_milestone_id : Option String
  pub superseded_task_ids : List String
