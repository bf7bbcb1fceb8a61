-- ===== src/Workflow/Replan.antt =====
-- `_maybe_replan_blocked_feature`: the repairs in their order, then a corrective planner task.
pub mod Corrective
use pgloom_engineering.Base.{
  ◌+◌, String, ◌<>◌, true, false, Option, none, some, List, [], ◌∷◌, ◌++◌, if◌then◌else◌, contains,
  is_nonempty, or_empty, filter,
}
use pgloom_engineering.Base.Json.{Json, is_truthy}
use pgloom_engineering.Settings.{Settings}
use pgloom_engineering.Workflow.Texts.{Texts}
use pgloom_engineering.Workflow.Rows.{
  TaskPayload, ReplanContext, TaskRow, corrective_slice, RecoveryAction, Store, Candidate, Report,
  Feature, FeatureGoalContract, InputContract,
}
use pgloom_engineering.Workflow.Recovery.{
  active_planner_exists, recoverable_blocked_task, recovery_attempt, completed_recovery_count,
  task_contract_for_task, blocked_task_type, blocked_slice_id, active_plan_contract_id,
}
use pgloom_engineering.Workflow.Effects.{
  Runtime, record_recovery_action, abandon_nonterminal_tasks, enqueue_planner,
}
use pgloom_engineering.Workflow.Repair.{
  Step, requeue_review_target_repair, requeue_validation_failure_owner_repair,
}
use pgloom_engineering.Workflow.SameRole.{
  requeue_interrupted_corrective_repair, requeue_same_role_repair,
}

unfoldable pub append_unique : List String → String → List String
append_unique values value = if contains values value then values else values ++ value ∷ []

abbrev pub goal_of : Option Feature → Option FeatureGoalContract
goal_of none = none
goal_of (some f) = f.feature_goal_contract

abbrev pub project_of : Option Feature → Option Json
project_of none = none
project_of (some f) = f.project

abbrev pub metadata_topology : Option Feature → Option Json
metadata_topology none = none
metadata_topology (some f) = f.agent_topology

-- `aggregate.get("agent_topology") or metadata.get("agent_topology")`
abbrev pub topology_of : Store → Option Json
topology_of s =
    if is_truthy s.agent_topology then some s.agent_topology else metadata_topology s.feature

-- `_contract_string_list`
abbrev pub allowed_paths_of : Option InputContract → List String
allowed_paths_of none = []
allowed_paths_of (some c) = filter is_nonempty c.allowed_paths

abbrev pub forbidden_paths_of : Option InputContract → List String
forbidden_paths_of none = []
forbidden_paths_of (some c) = filter is_nonempty c.forbidden_paths

abbrev pub replan_constraint : String
replan_constraint =
    "Planner replans must carry prior QA failure evidence into task slices, split broad QA into implementer-ready slices, and require deterministic self-validation before review."

module _ (texts : Texts) where
  unfoldable pub corrective_context : Candidate → Store → ReplanContext
  corrective_context candidate s =
      let t = candidate.task in
      let code = or_empty t.blocker_code in
      let repeat_count = completed_recovery_count s code t.id in
      let contract = task_contract_for_task s t.id in
      let failure = texts.failure_context t in
      let classification = texts.gate_classification t failure in
      let diagnosis = texts.allocation_diagnosis t failure classification repeat_count in
      record {
        mode = "corrective_slice";
        blocked_task_id = t.id;
        active_plan_contract_id = active_plan_contract_id s;
        blocker_code = code;
        blocker_reason = or_empty t.blocker_reason;
        failure_context = failure;
        blocked_task_contract = contract;
        blocked_task_type = blocked_task_type t contract;
        blocked_slice_allowed_paths = allowed_paths_of contract;
        blocked_slice_forbidden_paths = forbidden_paths_of contract;
        blocked_slice_id = blocked_slice_id contract;
        attempt = recovery_attempt (some candidate.recovery_attempt) t s;
        same_blocker_recovery_count = repeat_count;
        benchmark_gate_classification = classification;
        benchmark_allocation_diagnosis = diagnosis;
        summary = texts.replan_summary t repeat_count classification diagnosis;
        operator_intervention_id = none;
        replan_from_milestone_id = none;
        frozen_prefix_task_ids = [];
        frozen_prefix_slice_ids = [];
        replanned_slice_ids = [];
        reason = "";
      }

  -- None without a feature goal; the goal carries the failure on to the planner.
  unfoldable pub replan_payload : Candidate → Store → Option TaskPayload
  unfolding append_unique corrective_context
  replan_payload candidate s = elim (goal_of s.feature) [
    | none ↦ none
    | some goal ↦
        let context = corrective_context candidate s in
        some (record {
          feature_goal_contract = some (record goal {
            requirements = append_unique goal.requirements context.summary;
            constraints = append_unique goal.constraints replan_constraint;
          });
          agent_topology = topology_of s;
          project = project_of s.feature;
          allow_unregistered_project = false;
          requires_multi_agent_council = true;
          baseline_plan = none;
          plan_contract_id = none;
          replan_from_milestone_id = none;
          frozen_prefix_task_ids = [];
          operator_intervention_id = none;
          replan_context = some context;
          same_role_repair_context = none;
          preserve_worktree_on_retry = false;
        })
  ]

-- The first of two steps that applies.
abbrev pub or_step : Step → Step → Step
or_step (some done) next = some done
or_step none next = next

module _ (texts : Texts) (runtime : Runtime) (settings : Settings) where
  open settings use {workflow_replan_after_blocked_attempts as max_attempts}

  unfoldable pub corrective_action : Candidate → TaskRow → Store → RecoveryAction
  corrective_action candidate planner s =
      let t = candidate.task in
      record {
        task_id = some t.id;
        blocker_code =
            if is_nonempty (or_empty t.blocker_code)
            then or_empty t.blocker_code
            else "engineering.blocked";
        action = corrective_slice;
        status = "completed";
        attempt = recovery_attempt (some candidate.recovery_attempt) t s;
        max_attempts = max_attempts;
        rationale = (corrective_context texts candidate s).summary;
        outcome = "enqueued corrective-slice planner task " <> planner.id;
      }

  -- The planner task replaces all other unfinished work of the feature.
  unfoldable pub enqueue_corrective_planner : Candidate → TaskPayload → Store → Store × Report
  unfolding enqueue_planner corrective_action
  enqueue_corrective_planner candidate payload s =
      let (s', planner) = enqueue_planner runtime payload (candidate.task.priority + 1) s in
      (
        record_recovery_action (corrective_action candidate planner s)
            (abandon_nonterminal_tasks runtime s.tasks (planner.id ∷ []) s'),
        record {
          slot = "planner";
          claimed = true;
          status = "corrective_slice";
          task_ids = planner.id ∷ [];
          task_type = none;
          replanned_from_task_id = some candidate.task.id;
          operator_intervention_id = none;
          replan_from_milestone_id = none;
          superseded_task_ids = [];
        },
      )

  unfoldable pub corrective_replan : Candidate → Store → Step
  corrective_replan candidate s = elim (replan_payload texts candidate s) [
    | none ↦ none
    | some payload ↦ some (enqueue_corrective_planner candidate payload s)
  ]

  unfoldable pub recover : Candidate → Store → Step
  recover candidate s = or_step (requeue_review_target_repair texts runtime settings candidate s) (
      or_step (requeue_validation_failure_owner_repair texts runtime settings candidate s) (
        or_step (requeue_interrupted_corrective_repair texts runtime settings candidate s) (
          or_step (requeue_same_role_repair texts runtime settings candidate s)
            (corrective_replan candidate s))))

  unfoldable pub replan_blocked_feature : Store → Step
  unfolding recover
  replan_blocked_feature s =
      if active_planner_exists s then none else elim (recoverable_blocked_task texts settings s) [
        | none ↦ none
        | some candidate ↦ recover candidate s
      ]
