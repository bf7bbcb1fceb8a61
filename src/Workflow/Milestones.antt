-- ===== src/Workflow/Milestones.antt =====
-- `_maybe_consume_replan_from_milestone`: an operator asks for a new plan from a milestone on.
pub mod Prefix
mod Slices
use pgloom_engineering.Base.{
  ℕ, ◌+◌, max, String, ◌<>◌, ◌==◌, Bool, true, false, not, ◌&&◌, ◌||◌, Option, none, some, List, [],
  ◌∷◌, ◌++◌, map, if◌then◌else◌, or_empty, nonempty, is_nonempty, filter, any, find, contains,
}
use pgloom_engineering.Contracts.{MilestoneContract, PlanContract}
use pgloom_engineering.Workflow.Rows.{
  superseded, TaskPayload, ReplanContext, TaskRow, TaskContractRow, InputContract, PlanRow,
  Intervention, Store, Report, FeatureGoalContract, is_terminal,
}
use pgloom_engineering.Workflow.Recovery.{active_planner_exists}
use pgloom_engineering.Workflow.Effects.{Runtime, update_tasks, coalesce, enqueue_planner}
use pgloom_engineering.Workflow.Repair.{Step}
use pgloom_engineering.Workflow.Replan.{append_unique, goal_of, project_of, topology_of}
unfoldable pub use Slices.*

unfoldable pub highest_priority : List TaskRow → ℕ
highest_priority [] = 0
highest_priority (t ∷ rest) = max t.priority (highest_priority rest)

unfoldable pub next_planner_priority : List TaskRow → ℕ
unfolding highest_priority
next_planner_priority tasks = highest_priority tasks + 1

abbrev pub supersede_row : ℕ → TaskRow → TaskRow
supersede_row now t = record t {
  state = superseded;
  terminal_reason = coalesce t.terminal_reason "operator_replan_from_milestone";
  terminal_detail =
      coalesce t.terminal_detail "Superseded by operator replan-from-milestone intervention.";
  updated_at = now;
}

abbrev pub supersede_contract : List String → TaskContractRow → TaskContractRow
supersede_contract task_ids row =
    if contains task_ids (or_empty row.task_id) then record row { status = "superseded" } else row

-- Both updates; with no task ids they change nothing.
unfoldable pub supersede_tasks : List String → Store → Store
unfolding update_tasks
supersede_tasks task_ids s =
    let s' =
      update_tasks (λ t. contains task_ids t.id && not (is_terminal t.state)) (supersede_row s.now)
        s in
    record s' { task_contracts = map (supersede_contract task_ids) s.task_contracts }

abbrev pub context_intervention : Option ReplanContext → List String
context_intervention none = []
context_intervention (some c) = elim c.operator_intervention_id [ none ↦ [] | some id ↦ id ∷ [] ]

abbrev pub payload_interventions : Option TaskPayload → List String
payload_interventions none = []
payload_interventions (some p) =
    (elim p.operator_intervention_id [ none ↦ [] | some id ↦ id ∷ [] ])
    ++ context_intervention p.replan_context

unfoldable pub consumed_operator_intervention_ids : List TaskRow → List String
consumed_operator_intervention_ids [] = []
consumed_operator_intervention_ids (t ∷ rest) =
    payload_interventions t.payload ++ consumed_operator_intervention_ids rest

unfoldable pub is_pending : List String → Intervention → Bool
is_pending consumed i =
    i.action_type == "replan_from_milestone"
    && is_nonempty i.id
    && not (contains consumed i.id)
    && is_nonempty (or_empty i.milestone_id)

unfoldable pub next_replan_from_milestone_intervention : Store → Option Intervention
unfolding is_pending consumed_operator_intervention_ids
next_replan_from_milestone_intervention s =
    find (is_pending (consumed_operator_intervention_ids s.tasks)) s.operator_interventions

abbrev pub reason_of : Intervention → String
reason_of i =
    if is_nonempty (or_empty i.reason)
    then or_empty i.reason
    else "operator requested milestone replan"

abbrev pub milestone_context : Store → PlanContract → Intervention → ReplanContext
milestone_context s plan i =
    let milestone_id = or_empty i.milestone_id in
    let frozen = slice_ids_before_milestone plan milestone_id in
    record {
      mode = "replan_from_milestone";
      blocked_task_id = "";
      active_plan_contract_id = row_id (active_plan_row s);
      blocker_code = "";
      blocker_reason = "";
      failure_context = "";
      blocked_task_contract = none;
      blocked_task_type = none;
      blocked_slice_allowed_paths = [];
      blocked_slice_forbidden_paths = [];
      blocked_slice_id = none;
      attempt = 0;
      same_blocker_recovery_count = 0;
      benchmark_gate_classification = none;
      benchmark_allocation_diagnosis = none;
      summary =
          "Operator requested replan from milestone " <> milestone_id
          <> ". Frozen-prefix slices before that milestone must remain unchanged; replace only the requested milestone and downstream slices.";
      operator_intervention_id = some i.id;
      replan_from_milestone_id = some milestone_id;
      frozen_prefix_task_ids = task_ids_for_slice_ids s.task_contracts frozen;
      frozen_prefix_slice_ids = frozen;
      replanned_slice_ids = slice_ids_at_or_after_milestone plan milestone_id;
      reason = reason_of i;
    }

abbrev pub milestone_requirement : Intervention → String
milestone_requirement i =
    "Operator requested replan from milestone "
    <> or_empty i.milestone_id
    <> ": "
    <> reason_of i
    <> ". Preserve every frozen-prefix slice byte-for-byte and replace only the requested milestone and downstream work."

abbrev pub milestone_payload :
    Store → FeatureGoalContract → PlanContract → Intervention → TaskPayload
milestone_payload s goal plan i =
    let context = milestone_context s plan i in
    record {
      feature_goal_contract = some (record goal {
        requirements = append_unique goal.requirements (milestone_requirement i);
      });
      agent_topology = topology_of s;
      project = project_of s.feature;
      allow_unregistered_project = false;
      requires_multi_agent_council = true;
      baseline_plan = some plan;
      plan_contract_id = none;
      replan_from_milestone_id = i.milestone_id;
      frozen_prefix_task_ids = context.frozen_prefix_task_ids;
      operator_intervention_id = some i.id;
      replan_context = some context;
      same_role_repair_context = none;
      preserve_worktree_on_retry = false;
    }

unfoldable pub replan_from_milestone_payload : Store → Intervention → Option TaskPayload
replan_from_milestone_payload s i = elim (goal_of s.feature) [
  | none ↦ none
  | some goal ↦ elim (contract_of (active_plan_row s)) [
    | none ↦ none
    | some plan ↦
        if not (is_nonempty (or_empty i.milestone_id))
        then none
        else if not (any (λ m. m.milestone_id == or_empty i.milestone_id) plan.milestones)
        then none
        else some (milestone_payload s goal plan i)
  ]
]

module _ (runtime : Runtime) where
  unfoldable pub replan_from : Intervention → TaskPayload → Store → Store × Report
  unfolding supersede_tasks enqueue_planner task_ids_at_or_after_milestone next_planner_priority
  replan_from i payload s =
      let milestone_id = or_empty i.milestone_id in
      let task_ids = task_ids_at_or_after_milestone s milestone_id in
      let (s', planner) =
        enqueue_planner runtime payload (next_planner_priority s.tasks)
          (supersede_tasks task_ids s) in
      (
        s',
        record {
          slot = "planner";
          claimed = true;
          status = "replan_from_milestone";
          task_ids = planner.id ∷ [];
          task_type = none;
          replanned_from_task_id = none;
          operator_intervention_id = some i.id;
          replan_from_milestone_id = some milestone_id;
          superseded_task_ids = task_ids;
        },
      )

  unfoldable pub consume_intervention : Intervention → Store → Step
  unfolding replan_from replan_from_milestone_payload
  consume_intervention i s = elim (replan_from_milestone_payload s i) [
    | none ↦ none
    | some payload ↦ some (replan_from i payload s)
  ]

  unfoldable pub consume_replan_from_milestone : Store → Step
  unfolding consume_intervention next_replan_from_milestone_intervention
  consume_replan_from_milestone s =
      if active_planner_exists s then none else elim (next_replan_from_milestone_intervention s) [
        | none ↦ none
        | some i ↦ consume_intervention i s
      ]
