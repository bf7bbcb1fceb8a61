-- ===== src/Workflow/Restore.antt =====
-- `_maybe_restore_recovery_abandoned_tasks`: once a feature has only terminal tasks, the tasks of its
-- latest plan that a recovery set aside go back into the queue, unless the same work is done already.
pub mod Exact
use pgloom_engineering.Base.{
  ℕ, ◌+◌, String, ◌<>◌, ◌==◌, Bool, true, not, ◌&&◌, ◌||◌, Option, none, some, List, [], ◌∷◌, ltb,
  if◌then◌else◌, or_empty, is_nonempty, filter, any, is_empty, contains, join,
}
use pgloom_engineering.Workflow.Rows.{
  queued, TaskPayload, TaskRow, repair_task, RecoveryAction, Store, Report, is_terminal, is_blocked,
  is_done, is_set_aside,
}
use pgloom_engineering.Workflow.Status.{task_id_of}
use pgloom_engineering.Workflow.Effects.{update_tasks, record_recovery_action}
use pgloom_engineering.Workflow.Repair.{Step}

abbrev pub plan_id_of : Option TaskPayload → String
plan_id_of none = ""
plan_id_of (some payload) = or_empty payload.plan_contract_id

unfoldable pub task_plan_contract_id : TaskRow → String
task_plan_contract_id t = plan_id_of t.payload

abbrev pub is_done_in_plan : TaskRow → Bool
is_done_in_plan t = is_done t.state && is_nonempty (task_plan_contract_id t)

-- The loop of `_latest_completed_plan_contract_id`: the first of the most recent tasks so far.
unfoldable pub latest_done : Option TaskRow → List TaskRow → Option TaskRow
latest_done latest [] = latest
latest_done none (t ∷ rest) = latest_done (if is_done_in_plan t then some t else none) rest
latest_done (some best) (t ∷ rest) =
    latest_done
      (if is_done_in_plan t && ltb best.updated_at t.updated_at then some t else some best) rest

abbrev pub plan_of : Option TaskRow → String
plan_of none = ""
plan_of (some t) = task_plan_contract_id t

unfoldable pub latest_completed_plan_contract_id : List TaskRow → String
unfolding latest_done task_plan_contract_id
latest_completed_plan_contract_id tasks = plan_of (latest_done none tasks)

-- `_task_completion_key(a) == _task_completion_key(b)`
unfoldable pub same_completion_key : TaskRow → TaskRow → Bool
same_completion_key a b = a.task_type == b.task_type && or_empty a.slot == or_empty b.slot

-- The key of the task is among the keys of the plan's done tasks.
unfoldable pub is_completed_in : List TaskRow → String → TaskRow → Bool
unfolding same_completion_key task_plan_contract_id
is_completed_in tasks plan t =
    any (λ u. is_done u.state && task_plan_contract_id u == plan && same_completion_key t u) tasks

abbrev pub restorable_reasons : List String
restorable_reasons = "workflow_recovery_replan" ∷ "operator_replan_from_milestone" ∷ []

unfoldable pub is_restorable : List TaskRow → String → TaskRow → Bool
unfolding is_completed_in
is_restorable tasks plan t =
    task_plan_contract_id t == plan
    && is_set_aside t.state
    && contains restorable_reasons (or_empty t.terminal_reason)
    && not (is_completed_in tasks plan t)

abbrev pub restored : ℕ → TaskRow → TaskRow
restored now t = record t {
  state = queued;
  attempt = t.attempt + 1;
  blocker_code = none;
  blocker_reason = none;
  lease_owner = none;
  lease_expires_at = none;
  terminal_reason = none;
  terminal_detail = none;
  updated_at = now;
}

abbrev pub restore_action : List String → RecoveryAction
restore_action task_ids = record {
  task_id = none;
  blocker_code = "engineering.downstream_gates_abandoned";
  action = repair_task;
  status = "completed";
  attempt = 1;
  max_attempts = 1;
  rationale =
      "Restored recovery-abandoned downstream tasks from the latest plan after the owner repair completed.";
  outcome = "restored downstream tasks " <> join ", " task_ids;
}

abbrev pub restore_report : List String → Report
restore_report task_ids = record {
  slot = "workflow";
  claimed = true;
  status = "restored_recovery_abandoned_tasks";
  task_ids = task_ids;
  task_type = none;
  replanned_from_task_id = none;
  operator_intervention_id = none;
  replan_from_milestone_id = none;
  superseded_task_ids = [];
}

-- The tasks that go back into the queue.
unfoldable pub tasks_to_restore : List TaskRow → List TaskRow
unfolding latest_completed_plan_contract_id is_restorable
tasks_to_restore tasks =
    let plan = latest_completed_plan_contract_id tasks in
    if any (λ t. is_blocked t.state) tasks
    then []
    else if any (λ t. not (is_terminal t.state || is_blocked t.state)) tasks
    then []
    else if plan == ""
    then []
    else filter (is_restorable tasks plan) tasks

unfoldable pub restore_recovery_abandoned_tasks : Store → Step
unfolding tasks_to_restore update_tasks record_recovery_action
restore_recovery_abandoned_tasks s =
    let task_ids = filter is_nonempty (task_id_of (tasks_to_restore s.tasks)) in
    if is_empty task_ids
    then none
    else some (
      record_recovery_action (restore_action task_ids)
          (update_tasks (λ t. contains task_ids t.id) (restored s.now) s),
      restore_report task_ids,
    )
