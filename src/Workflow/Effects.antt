-- ===== src/Workflow/Effects.antt =====
-- The driver's writes to the store: the updates of `tasks`, the recovery log and new planner tasks.
pub mod Abandon
use pgloom_engineering.Base.{
  ℕ, String, ◌==◌, ◌≡◌, Bool, true, false, ◌||◌, Option, none, some, List, [], ◌∷◌, ◌++◌, map,
  if◌then◌else◌, contains,
}
use pgloom_engineering.Workflow.Rows.{
  TaskState, queued, abandoned, TaskPayload, RepairContext, TaskRow, RecoveryAction, Store,
  is_terminal,
}

-- The two functions of the task runtime that the driver calls: the row that `enqueue_task` inserts,
-- and the row that `transition_task` leaves.
pub record Runtime : Type 0 where
  pub enqueue_task :
      Store → (task_type slot : String) → TaskPayload → (priority max_attempts : ℕ) → TaskRow
  pub transition_task : TaskRow → TaskState → TaskRow

-- What the driver relies on: a transition gives the row the state, and does not rename the task.
pub record Transitions (runtime : Runtime) : Type 0 where
  pub state : (t : TaskRow) (state : TaskState) → (runtime.transition_task t state).state ≡ state
  pub id : (t : TaskRow) (state : TaskState) → (runtime.transition_task t state).id ≡ t.id

-- And: a new task is queued, with the type that was asked for.
pub record Enqueues (runtime : Runtime) : Type 0 where
  pub state :
      (s : Store) (task_type slot : String) (payload : TaskPayload) (priority max_attempts : ℕ)
      → (runtime.enqueue_task s task_type slot payload priority max_attempts).state ≡ queued
  pub task_type :
      (s : Store) (task_type slot : String) (payload : TaskPayload) (priority max_attempts : ℕ)
      → (runtime.enqueue_task s task_type slot payload priority max_attempts).task_type ≡ task_type

-- `update tasks set ... where ...`
unfoldable pub update_rows : (TaskRow → Bool) → (TaskRow → TaskRow) → List TaskRow → List TaskRow
update_rows matches f rows = map (λ t. if matches t then f t else t) rows

unfoldable pub update_tasks : (TaskRow → Bool) → (TaskRow → TaskRow) → Store → Store
unfolding update_rows
update_tasks matches f s = record s { tasks = update_rows matches f s.tasks }

abbrev pub empty_payload : TaskPayload
empty_payload = record {
  feature_goal_contract = none;
  agent_topology = none;
  project = none;
  allow_unregistered_project = false;
  requires_multi_agent_council = false;
  baseline_plan = none;
  plan_contract_id = none;
  replan_from_milestone_id = none;
  frozen_prefix_task_ids = [];
  operator_intervention_id = none;
  replan_context = none;
  same_role_repair_context = none;
  preserve_worktree_on_retry = false;
}

-- `coalesce(payload, '{}') || {...}`
abbrev pub with_repair : RepairContext → Option TaskPayload → TaskPayload
with_repair context none = record empty_payload {
  same_role_repair_context = some context;
  preserve_worktree_on_retry = true;
}
with_repair context (some payload) = record payload {
  same_role_repair_context = some context;
  preserve_worktree_on_retry = true;
}

abbrev pub requeued : ℕ → RepairContext → ℕ → TaskRow → TaskRow
requeued attempt context now t = record t {
  state = queued;
  attempt = attempt;
  payload = some (with_repair context t.payload);
  blocker_code = none;
  blocker_reason = none;
  lease_owner = none;
  lease_expires_at = none;
  updated_at = now;
}

-- The update that puts a task back into the queue for a repair.
unfoldable pub requeue : String → ℕ → RepairContext → Store → Store
unfolding update_tasks
requeue task_id attempt context s =
    update_tasks (λ t. t.id == task_id) (requeued attempt context s.now) s

unfoldable pub record_recovery_action : RecoveryAction → Store → Store
record_recovery_action a s = record s { recovery_actions = s.recovery_actions ++ a ∷ [] }

-- `coalesce(old, new)`
abbrev pub coalesce : Option String → String → Option String
coalesce none new = some new
coalesce (some old) new = some old

module _ (runtime : Runtime) where
  -- The row that an abandoned task becomes.
  unfoldable pub abandon_row : ℕ → TaskRow → TaskRow
  abandon_row now t =
      let moved = runtime.transition_task t abandoned in
      record moved {
        terminal_reason = coalesce moved.terminal_reason "workflow_recovery_replan";
        terminal_detail = coalesce moved.terminal_detail "Superseded by workflow recovery replan.";
        updated_at = now;
      }

  -- `_abandon_nonterminal_tasks`, over the aggregate that was read before the step.
  unfoldable pub abandon_nonterminal_tasks : List TaskRow → List String → Store → Store
  unfolding update_tasks abandon_row
  abandon_nonterminal_tasks [] exclude s = s
  abandon_nonterminal_tasks (t ∷ aggregate) exclude s =
      abandon_nonterminal_tasks aggregate exclude (
        if contains exclude t.id || is_terminal t.state
        then s
        else update_tasks (λ u. u.id == t.id) (abandon_row s.now) s)

  -- `enqueue_task` and `attach_task`: the new planner is the last task of the feature.
  unfoldable pub enqueue_planner : TaskPayload → ℕ → Store → Store × TaskRow
  enqueue_planner payload priority s =
      let planner = runtime.enqueue_task s "engineering.plan" "planner" payload priority 3 in
      (record s { tasks = s.tasks ++ planner ∷ [] }, planner)
