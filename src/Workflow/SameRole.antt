-- ===== src/Workflow/SameRole.antt =====
-- The repairs that stay with the blocked task: a planner crash during a corrective replan, and a
-- failure that the task's own role repairs.
pub mod Counting
use pgloom_engineering.Base.{
  String, ◌<>◌, ◌==◌, Bool, true, false, not, ◌&&◌, ◌||◌, Option, none, some, List, [], ◌∷◌, leb,
  if◌then◌else◌, contains, is_nonempty, or_empty,
}
use pgloom_engineering.Base.Json.{Json, Fields, string, array, null, nil, end, field, get}
use pgloom_engineering.Settings.{Settings}
use pgloom_engineering.Workflow.Texts.{Texts, joined_context, repair_task_type}
use pgloom_engineering.Workflow.Rows.{
  ReplanContext, RepairContext, TaskPayload, TaskRow, Store, Candidate,
}
use pgloom_engineering.Workflow.Recovery.{
  recovery_attempt, latest_task_by_type, task_by_id, task_contract_for_task, blocked_task_type,
  blocked_slice_id,
}
use pgloom_engineering.Workflow.Effects.{
  Runtime, requeue, record_recovery_action, abandon_nonterminal_tasks,
}
use pgloom_engineering.Workflow.Repair.{Step, repair_report, repair_action, next_attempt}

-- `value not in (None, "", [])`
unfoldable pub is_present : Json → Bool
is_present null = false
is_present (string s) = is_nonempty s
is_present (array nil) = false
is_present _ = true

abbrev pub copy_field : String → Option Json → Fields → Fields
copy_field key none rest = rest
copy_field key (some v) rest = if is_present v then field key v rest else rest

-- The keys of a result that go into the repair context.
unfoldable pub copy_fields : List String → Fields → Fields
unfolding is_present
copy_fields [] result = end
copy_fields (key ∷ keys) result = copy_field key (get key result) (copy_fields keys result)

abbrev pub evidence_keys : List String
evidence_keys =
    "changed_files" ∷ "findings" ∷ "commands_run" ∷ "quality_failure_commands"
    ∷ "failed_verifications" ∷ "worker_crash" ∷ []

abbrev pub evidence_of : Option Fields → Fields
evidence_of none = end
evidence_of (some result) = copy_fields evidence_keys result

abbrev pub replan_context_of : Option TaskPayload → Option ReplanContext
replan_context_of none = none
replan_context_of (some payload) = payload.replan_context

unfoldable pub interrupted_repair_target_task : Store → ReplanContext → Option TaskRow
interrupted_repair_target_task s prior =
    if prior.blocker_code == "engineering.review_rejected"
    then latest_task_by_type s
        (repair_task_type (joined_context prior.blocker_reason prior.failure_context))
    else task_by_id s prior.blocked_task_id

-- `str(a or b or "")`
abbrev pub first_nonempty : String → String → String
first_nonempty a b = if is_nonempty a then a else b

module _ (texts : Texts) (runtime : Runtime) (settings : Settings) where
  open settings use {
    workflow_replan_after_blocked_attempts as max_attempts,
    workflow_same_role_repair_blocker_codes as same_role_codes,
  }

  abbrev pub interrupted_context : Candidate → ReplanContext → TaskRow → String → RepairContext
  interrupted_context candidate prior original task_type = record {
    mode = "same_role_repair";
    source = some "interrupted_corrective_planner";
    review_task_id = none;
    validator_task_id = none;
    interrupted_planner_task_id = some candidate.task.id;
    original_blocked_task_id = some prior.blocked_task_id;
    blocked_task_id = original.id;
    blocked_task_type = some task_type;
    blocked_slice_id = prior.blocked_slice_id;
    blocker_code = prior.blocker_code;
    blocker_reason = prior.blocker_reason;
    failure_context = prior.failure_context;
    summary =
        first_nonempty prior.summary
          "Resume the original blocked task repair after corrective planner crash.";
    recommended_owner = none;
    blocked_task_contract = prior.blocked_task_contract;
    allowed_paths = prior.blocked_slice_allowed_paths;
    forbidden_paths = prior.blocked_slice_forbidden_paths;
    benchmark_allocation_diagnosis = prior.benchmark_allocation_diagnosis;
    evidence = end;
  }

  unfoldable pub resume_original : Candidate → ReplanContext → Store → TaskRow → Step
  unfolding repair_report repair_action
  resume_original candidate prior s original =
      let task_type = first_nonempty original.task_type (or_empty prior.blocked_task_type) in
      let slot = or_empty original.slot in
      let attempt = recovery_attempt (some candidate.recovery_attempt) original s in
      let context = interrupted_context candidate prior original task_type in
      let action =
        repair_action original.id prior.blocker_code context.summary attempt max_attempts (
          "requeued interrupted corrective repair task " <> original.id <> " after planner crash "
          <> candidate.task.id) in
      if not (is_nonempty original.id) || not (is_nonempty task_type) || not (is_nonempty slot)
      then none
      else if not (is_nonempty prior.failure_context) && not (is_nonempty prior.blocker_reason)
      then none
      else if leb max_attempts attempt
      then none
      else some (
        abandon_nonterminal_tasks runtime s.tasks (original.id ∷ []) (
            record_recovery_action action
              (requeue original.id (next_attempt original attempt) context s)),
        repair_report slot original.id task_type,
      )

  unfoldable pub resume_from : Candidate → Store → Option ReplanContext → Step
  unfolding resume_original interrupted_repair_target_task
  resume_from candidate s none = none
  resume_from candidate s (some prior) =
      if not (is_nonempty prior.blocked_task_id) || not (is_nonempty prior.blocker_code)
      then none
      else if not (contains same_role_codes prior.blocker_code)
          && not (prior.blocker_code == "engineering.review_rejected")
      then none
      else elim (interrupted_repair_target_task s prior) [
        | none ↦ none
        | some original ↦ resume_original candidate prior s original
      ]

  unfoldable pub requeue_interrupted_corrective_repair : Candidate → Store → Step
  unfolding resume_from
  requeue_interrupted_corrective_repair candidate s =
      let t = candidate.task in
      if not (or_empty t.blocker_code == "engineering.worker_crash")
      then none
      else if not (t.task_type == "engineering.plan")
      then none
      else resume_from candidate s (replan_context_of t.payload)

  unfoldable pub same_role_repair_context : TaskRow → Store → RepairContext
  unfolding copy_fields
  same_role_repair_context t s =
      let contract = task_contract_for_task s t.id in
      record {
        mode = "same_role_repair";
        source = none;
        review_task_id = none;
        validator_task_id = none;
        interrupted_planner_task_id = none;
        original_blocked_task_id = none;
        blocked_task_id = t.id;
        blocked_task_type = blocked_task_type t contract;
        blocked_slice_id = blocked_slice_id contract;
        blocker_code = or_empty t.blocker_code;
        blocker_reason = or_empty t.blocker_reason;
        failure_context = texts.failure_context t;
        summary = texts.replan_summary t 0 none none;
        recommended_owner = none;
        blocked_task_contract = none;
        allowed_paths = [];
        forbidden_paths = [];
        benchmark_allocation_diagnosis = none;
        evidence = evidence_of t.result;
      }

  unfoldable pub requeue_same_role_repair : Candidate → Store → Step
  unfolding repair_report repair_action
  requeue_same_role_repair candidate s =
      let t = candidate.task in
      let code = or_empty t.blocker_code in
      let slot = or_empty t.slot in
      let attempt = recovery_attempt (some candidate.recovery_attempt) t s in
      let context = same_role_repair_context t s in
      let action =
        repair_action t.id code
          (first_nonempty context.summary "Requeue blocked task for same-role repair.") attempt
          max_attempts ("requeued same-role repair task " <> t.id) in
      if not (contains same_role_codes code)
      then none
      else if not (is_nonempty t.id) || not (is_nonempty t.task_type) || not (is_nonempty slot)
      then none
      else if not (is_nonempty (texts.failure_context t))
      then none
      else if leb max_attempts attempt
      then none
      else some (
        record_recovery_action action (requeue t.id (next_attempt t attempt) context s),
        repair_report slot t.id t.task_type,
      )
