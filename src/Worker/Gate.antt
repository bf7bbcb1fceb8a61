-- ===== src/Worker/Gate.antt =====
-- `_pre_execution_gate` of worker.py: why a claimed task may not run.
pub mod Open
use mathlib.Core.List.{reverse}
use pgloom_engineering.Base.{
  String, ◌<>◌, ◌==◌, Bool, true, false, not, ◌&&◌, ◌||◌, Option, none, some, List, [], ◌∷◌,
  if◌then◌else◌, any, find, contains, is_nonempty, or_empty,
}
use pgloom_engineering.Base.Json.{Json, Fields, object, end, field, get, is_text}
use pgloom_engineering.Contracts.{
  MilestoneContract, PlanContract, SignoffPolicy, scrutiny_only, scrutiny_and_usertest,
}
use pgloom_engineering.Workflow.Rows.{
  InputContract, TaskContractRow, Action, block_execution, retire_superseded,
}
use pgloom_engineering.Worker.Signoff.{QaSignoff, milestone_blocker}

-- `role_gate_contract` of a project, and the gate that a task contract was written with.
pub record RoleGate : Type 0 where
  pub project : String
  pub role : String
  pub status : String
  pub reason : String

pub record Project : Type 0 where
  pub state : String
  -- the project's gate for the role of the task
  pub gate : RoleGate

-- What the gate reads about a task. `lock_free` is what `acquire_lock` answers.
pub record Reading : Type 0 where
  pub task_type : String
  pub project_name : String
  pub project : Option Project
  pub allow_unregistered_project : Bool
  pub paused : Bool
  -- the `plan_contract_id` of the row, its contract, and the contract's role gate
  pub task_contract : Option (String × InputContract × Option RoleGate)
  pub active_plan : Option (String × PlanContract)
  pub signoffs : List QaSignoff
  pub rows : List TaskContractRow
  pub lock_free : Bool
  pub handoff_types : List String

pub record Block : Type 0 where
  pub blocker_code : String
  pub action : Action
  pub rationale : String

abbrev pub execution_block : String → String → Block
execution_block code rationale = record {
  blocker_code = code;
  action = block_execution;
  rationale = rationale;
}

abbrev pub refuse_when : Bool → Block → Option Block → Option Block
refuse_when true refusal rest = some refusal
refuse_when false refusal rest = rest

abbrev pub refuse_with : Option String → String → Option Block → Option Block
refuse_with none code rest = rest
refuse_with (some reason) code rest = some (execution_block code reason)

unfoldable pub mismatch : RoleGate → Option RoleGate → Option String
mismatch current none = none
mismatch current (some expected) =
    if not (expected.project == current.project) || not (expected.role == current.role)
    then some (
        "TaskContract role_gate contract does not match current project role: expected "
        <> expected.project <> "/" <> expected.role <> ", got " <> current.project <> "/"
        <> current.role <> ".")
    else none

unfoldable pub role_gate_blocker : Option Project → Option RoleGate → Option String
unfolding mismatch
role_gate_blocker none expected = none
role_gate_blocker (some project) expected =
    if project.gate.status == "disabled"
    then some project.gate.reason
    else mismatch project.gate expected

abbrev pub has_output : Option TaskContractRow → Bool
has_output none = false
has_output (some row) = elim row.output_contract [
  | none ↦ false
  | some output ↦ elim output [ end ↦ false | field key v rest ↦ true ]
]

-- A handoff from a producer, or a dependency whose contract has an output.
unfoldable pub has_reviewable_dependency_output : Reading → InputContract → Bool
has_reviewable_dependency_output g c =
    contains g.handoff_types "task_result"
    || contains g.handoff_types "qa_author_contract"
    || any (λ id. has_output (find (λ row. or_empty row.task_id == id) g.rows))
        (reverse c.dependencies)

abbrev pub is_missing : Option Project → Bool
is_missing none = true
is_missing (some p) = false

-- The checks that need the plan.
unfoldable pub contract_gate :
    Reading → String → InputContract → Option RoleGate → String × PlanContract → Option Block
unfolding role_gate_blocker milestone_blocker has_reviewable_dependency_output
contract_gate g plan_contract_id c expected (plan_id, plan) =
    refuse_when (not (plan_contract_id == plan_id))
      (record {
        blocker_code = "engineering.stale_task_contract";
        action = retire_superseded;
        rationale =
            "Task contract targets " <> plan_contract_id <> " but active plan is " <> plan_id
            <> ".";
      })
      (refuse_with (role_gate_blocker g.project expected) "engineering.role_gate_disabled" (
        refuse_with (milestone_blocker g.signoffs g.rows plan c) "engineering.milestone_locked" (
          refuse_when (g.task_type == "engineering.qa.verify.usertest" && not g.lock_free)
            (execution_block "engineering.usertest_resource_locked" (
              "User-test resource lock is busy: engineering:" <> g.project_name <> ":full_app_run"))
            (refuse_when
              (g.task_type == "engineering.review" && not (has_reviewable_dependency_output g c))
              (execution_block "engineering.handoff_missing"
                "Review task requires a producer handoff or dependency output.")
              none))))

abbrev pub plan_gate :
    Reading
    → Option (String × InputContract × Option RoleGate)
    → Option (String × PlanContract)
    → Option Block
plan_gate g none plan = some (
    execution_block "engineering.task_contract_missing"
      "Non-planner task has no persisted TaskContract.")
plan_gate g (some contract) none = some (
    execution_block "engineering.active_plan_missing"
      "Non-planner task has no active feature plan.")
plan_gate g (some (plan_contract_id, c, expected)) (some plan) =
    contract_gate g plan_contract_id c expected plan

-- The checks on a task that is no planner task.
unfoldable pub task_gate : Reading → Option Block
unfolding contract_gate
task_gate g =
    refuse_when g.paused
      (execution_block "engineering.feature_paused"
        "Feature dispatch is paused by operator intervention.")
      (plan_gate g g.task_contract g.active_plan)

abbrev pub project_unresolved : Block
project_unresolved =
    execution_block "engineering.project_unresolved"
      "Task does not identify an engineering project."

abbrev pub project_unregistered : Reading → Block
project_unregistered g =
    execution_block "engineering.project_unregistered"
      ("Project is not registered: " <> g.project_name)

abbrev pub project_disabled : Reading → Project → Block
project_disabled g project =
    execution_block "engineering.project_disabled"
      ("Project " <> g.project_name <> " is " <> project.state <> ".")

-- `if project is not None and project.state != "active"`
abbrev pub refuse_disabled : Reading → Option Project → Option Block → Option Block
refuse_disabled g none rest = rest
refuse_disabled g (some project) rest =
    refuse_when (not (project.state == "active")) (project_disabled g project) rest

abbrev pub unless_planner : Reading → Option Block
unless_planner g = if g.task_type == "engineering.plan" then none else task_gate g

unfoldable pub pre_execution_gate : Reading → Option Block
unfolding task_gate
pre_execution_gate g = refuse_when (not (is_nonempty g.project_name)) project_unresolved (
    refuse_when (is_missing g.project && not g.allow_unregistered_project) (project_unregistered g)
      (refuse_disabled g g.project (unless_planner g)))
