-- ===== src/Workflow/Rows/Payloads.antt =====
-- The JSON payloads of tasks: the feature's goal, a task's contract, and the contexts of recoveries.
use pgloom_engineering.Base.{ℕ, String, Bool, Option, List}
use pgloom_engineering.Base.Json.{Json, Fields}
use pgloom_engineering.Contracts.{PlanContract}

pub record FeatureGoalContract : Type 0 where
  pub project : String
  pub goal : String
  pub requirements : List String
  pub constraints : List String
  pub acceptance_criteria : List String

-- The keys of a `TaskContract` that the driver and the worker read.
pub record InputContract : Type 0 where
  pub task_type : String
  pub role : String
  pub plan_contract_id : String
  pub task_slice_id : Option String
  pub milestone_id : Option String
  pub allowed_paths : List String
  pub forbidden_paths : List String
  pub dependencies : List String

pub record ReplanContext : Type 0 where
  pub mode : String
  pub blocked_task_id : String
  pub active_plan_contract_id : Option String
  pub blocker_code : String
  pub blocker_reason : String
  pub failure_context : String
  pub blocked_task_contract : Option InputContract
  pub blocked_task_type : Option String
  pub blocked_slice_allowed_paths : List String
  pub blocked_slice_forbidden_paths : List String
  pub blocked_slice_id : Option String
  pub attempt : ℕ
  pub same_blocker_recovery_count : ℕ
  pub benchmark_gate_classification : Option String
  pub benchmark_allocation_diagnosis : Option Json
  pub summary : String
  pub operator_intervention_id : Option String
  pub replan_from_milestone_id : Option String
  pub frozen_prefix_task_ids : List String
  pub frozen_prefix_slice_ids : List String
  pub replanned_slice_ids : List String
  pub reason : String

pub record RepairContext : Type 0 where
  pub mode : String
  pub source : Option String
  pub review_task_id : Option String
  pub validator_task_id : Option String
  pub interrupted_planner_task_id : Option String
  pub original_blocked_task_id : Option String
  pub blocked_task_id : String
  pub blocked_task_type : Option String
  pub blocked_slice_id : Option String
  pub blocker_code : String
  pub blocker_reason : String
  pub failure_context : String
  pub summary : String
  pub recommended_owner : Option String
  pub blocked_task_contract : Option InputContract
  pub allowed_paths : List String
  pub forbidden_paths : List String
  pub benchmark_allocation_diagnosis : Option Json
  pub evidence : Fields

pub record TaskPayload : Type 0 where
  pub feature_goal_contract : Option FeatureGoalContract
  pub agent_topology : Option Json
  pub project : Option Json
  pub allow_unregistered_project : Bool
  pub requires_multi_agent_council : Bool
  pub baseline_plan : Option PlanContract
  pub plan_contract_id : Option String
  pub replan_from_milestone_id : Option String
  pub frozen_prefix_task_ids : List String
  pub operator_intervention_id : Option String
  pub replan_context : Option ReplanContext
  pub same_role_repair_context : Option RepairContext
  pub preserve_worktree_on_retry : Bool
