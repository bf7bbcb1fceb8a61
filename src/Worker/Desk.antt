-- ===== src/Worker/Desk.antt =====
-- What worker.py reads and writes around one claimed task: its row, the task contracts, handoffs and
-- sign-offs of the feature, the log of recoveries, the resource locks and the run of the worker.
-- Commands, evidence, artifacts and ids that are copied from a result to the run are left out.
use pgloom_engineering.Base.{
  ℕ, String, ◌==◌, Bool, false, not, ◌&&◌, Option, none, some, List, [], ◌∷◌, ◌++◌, map,
  if◌then◌else◌, contains, filter, find, flat_map, or_empty, nat_eq,
}
use pgloom_engineering.Base.Json.{Fields}
use pgloom_engineering.Workflow.Rows.{
  TaskState, TaskRow, TaskContractRow, RecoveryAction, Action, WorkerRun, ResourceLock, TaskPayload,
  or_one,
}

pub record Handoff : Type 0 where
  pub from_task_id : String
  pub to_task_id : Option String
  pub handoff_type : String
  pub contract : Fields

-- A row of `engineering_qa_signoffs`.
pub record SignoffRow : Type 0 where
  pub task_id : String
  pub milestone_id : Option String
  pub validator_type : String
  pub verdict : String

pub record Desk : Type 0 where
  pub task : TaskRow
  pub task_contracts : List TaskContractRow
  pub handoffs : List Handoff
  pub signoffs : List SignoffRow
  pub recovery_actions : List RecoveryAction
  pub resource_locks : List ResourceLock
  pub run : WorkerRun

-- The functions of the task runtime that the worker calls: the row that `transition_task` leaves, with
-- a blocker's code and reason and a result, the row that `retry_or_fail_task` leaves, and the number
-- of attempts of the retry policy.
pub record TaskRuntime : Type 0 where
  pub transition_task :
      TaskState → (code reason : Option String) → (result : Option Fields) → TaskRow → TaskRow
  pub retry_or_fail_task : (reason : String) → TaskRow → TaskRow
  pub policy_attempts : Option TaskPayload → ℕ

-- `get_task_contract`
unfoldable pub get_task_contract : String → List TaskContractRow → Option TaskContractRow
get_task_contract id rows = find (λ r. or_empty r.task_id == id) rows

-- `upsert_task_contract` of a contract that is there: the output and the status are new.
unfoldable pub upsert_task_contract : String → Fields → String → Desk → Desk
upsert_task_contract id output status d = record d {
  task_contracts =
      map
        (λ r.
          if or_empty r.task_id == id
          then record r { output_contract = some output; status = status }
          else r)
        d.task_contracts;
}

abbrev dependencies_of_row : TaskContractRow → List String
dependencies_of_row r = elim r.input_contract [ none ↦ [] | some c ↦ c.dependencies ]

-- `_record_dependency_handoffs`: one handoff for each contract that depends on the task.
unfoldable pub record_dependency_handoffs : String → String → Fields → Desk → Desk
record_dependency_handoffs from_task_id handoff_type contract d = record d {
  handoffs =
      d.handoffs
      ++ flat_map
          (λ r.
            if contains (dependencies_of_row r) from_task_id
            then record {
              from_task_id = from_task_id;
              to_task_id = r.task_id;
              handoff_type = handoff_type;
              contract = contract;
            }
              ∷ []
            else [])
          d.task_contracts;
}

abbrev same_milestone : Option String → Option String → Bool
same_milestone (some m) (some n) = m == n
same_milestone _ _ = false

-- `record_qa_signoff`: a row of the same milestone and validator is replaced; without a milestone
-- there is none.
unfoldable pub record_qa_signoff : SignoffRow → Desk → Desk
record_qa_signoff row d = record d {
  signoffs =
      filter
        (λ r. not (
          same_milestone r.milestone_id row.milestone_id && r.validator_type == row.validator_type))
        d.signoffs
      ++ row ∷ [];
}

abbrev or_three : ℕ → ℕ
or_three n = if nat_eq n 0 then 3 else n

-- `_record_recovery`, for the task as it was claimed
unfoldable pub record_recovery : TaskRow → String → Action → String → String → Desk → Desk
record_recovery task blocker_code action rationale outcome d = record d {
  recovery_actions =
      d.recovery_actions
      ++ record {
        task_id = some task.id;
        blocker_code = blocker_code;
        action = action;
        status = "open";
        attempt = or_one task.attempt;
        max_attempts = or_three task.max_attempts;
        rationale = rationale;
        outcome = outcome;
      }
        ∷ [];
}

-- `_release_task_resource_locks`
unfoldable pub release_task_resource_locks : String → Desk → Desk
release_task_resource_locks task_id d = record d {
  resource_locks = filter (λ l. not (l.task_id == task_id)) d.resource_locks;
}

-- A column that is written only with a value.
abbrev new_or_old : Option String → Option String → Option String
new_or_old none old = old
new_or_old (some new) old = some new

-- `finish_worker_run`
unfoldable pub finish_worker_run :
    (status : String) → (code reason detail : Option String) → Desk → Desk
finish_worker_run status code reason detail d = record d {
  run = record d.run {
    status = status;
    blocker_code = code;
    terminal_reason = new_or_old reason d.run.terminal_reason;
    terminal_detail = new_or_old detail d.run.terminal_detail;
  };
}

abbrev pub with_task : (TaskRow → TaskRow) → Desk → Desk
with_task f d = record d { task = f d.task }
