-- ===== src/Workflow/Repair.antt =====
-- What the driver's repairs share, and the two that put another task than the blocked one back into
-- the queue. Each returns the store that it leaves and its report, or none if it does not apply.
use pgloom_engineering.Base.{
  ℕ, ◌+◌, max, String, ◌<>◌, ◌==◌, true, not, ◌||◌, Option, none, some, [], ◌∷◌, leb, if◌then◌else◌,
  is_nonempty, or_empty,
}
use pgloom_engineering.Base.Json.{end}
use pgloom_engineering.Settings.{Settings}
use pgloom_engineering.Workflow.Texts.{Texts, joined_context, repair_task_type}
use pgloom_engineering.Workflow.Rows.{
  RepairContext, TaskRow, repair_task, RecoveryAction, Store, Candidate, Report, or_one,
}
use pgloom_engineering.Workflow.Recovery.{recovery_attempt, latest_task_by_type}
use pgloom_engineering.Workflow.Effects.{
  Runtime, requeue, record_recovery_action, abandon_nonterminal_tasks,
}

abbrev pub Step : Type 0
Step = Option (Store × Report)

unfoldable pub repair_report : String → String → String → Report
repair_report slot task_id task_type = record {
  slot = slot;
  claimed = true;
  status = "repair_task";
  task_ids = task_id ∷ [];
  task_type = some task_type;
  replanned_from_task_id = none;
  operator_intervention_id = none;
  replan_from_milestone_id = none;
  superseded_task_ids = [];
}

-- `max(int(task.attempt or 1) + 1, attempt + 1)`
abbrev pub next_attempt : TaskRow → ℕ → ℕ
next_attempt t attempt = max (or_one t.attempt + 1) (attempt + 1)

unfoldable pub repair_action : String → String → String → ℕ → ℕ → String → RecoveryAction
repair_action task_id blocker_code rationale attempt max_attempts outcome = record {
  task_id = some task_id;
  blocker_code = blocker_code;
  action = repair_task;
  status = "completed";
  attempt = attempt;
  max_attempts = max_attempts;
  rationale = rationale;
  outcome = outcome;
}

abbrev pub routed_context :
    String → TaskRow → String → String → String → String → String → RepairContext
routed_context source target target_task_type blocker_code blocker_reason failure_context summary =
    record {
      mode = "routed_repair";
      source = some source;
      review_task_id = none;
      validator_task_id = none;
      interrupted_planner_task_id = none;
      original_blocked_task_id = none;
      blocked_task_id = target.id;
      blocked_task_type = some target_task_type;
      blocked_slice_id = none;
      blocker_code = blocker_code;
      blocker_reason = blocker_reason;
      failure_context = failure_context;
      summary = summary;
      recommended_owner = none;
      blocked_task_contract = none;
      allowed_paths = [];
      forbidden_paths = [];
      benchmark_allocation_diagnosis = none;
      evidence = end;
    }

module _ (texts : Texts) (runtime : Runtime) (settings : Settings) where
  open settings use {
    workflow_replan_after_blocked_attempts as max_attempts,
    workflow_same_role_repair_blocker_codes as same_role_codes,
  }

  abbrev pub context_of : TaskRow → String
  context_of t = joined_context (or_empty t.blocker_reason) (texts.failure_context t)

  -- The update, the log entry and the abandoning of the other tasks that the routed repairs share.
  unfoldable pub route_to :
      Candidate → TaskRow → String → String → RepairContext → String → Store → Step
  unfolding repair_report repair_action
  route_to candidate target target_task_type blocker_code context outcome s =
      let attempt = recovery_attempt (some candidate.recovery_attempt) candidate.task s in
      let action =
        repair_action target.id blocker_code context.summary attempt max_attempts outcome in
      if not (is_nonempty target.id) || not (is_nonempty (or_empty target.slot))
      then none
      else if leb max_attempts attempt
      then none
      else some (
        abandon_nonterminal_tasks runtime s.tasks (target.id ∷ []) (
            record_recovery_action action
              (requeue target.id (next_attempt target attempt) context s)),
        repair_report (or_empty target.slot) target.id target_task_type,
      )

  unfoldable pub requeue_review_target_repair : Candidate → Store → Step
  unfolding route_to
  requeue_review_target_repair candidate s =
      let t = candidate.task in
      let review_context = context_of t in
      let target_task_type = repair_task_type review_context in
      if not (or_empty t.blocker_code == "engineering.review_rejected")
      then none
      else elim (latest_task_by_type s target_task_type) [
        | none ↦ none
        | some target ↦
            route_to candidate target target_task_type "engineering.review_rejected"
              (record (routed_context "review_rejected" target target_task_type
                "engineering.review_rejected" (or_empty t.blocker_reason) review_context
                (texts.replan_summary t 0 none none)) {
                  review_task_id = some t.id;
                  recommended_owner = some (
                      if target_task_type == "engineering.qa.author"
                      then "qa-author"
                      else "implementer");
                })
              ("routed reviewer rejection to " <> target_task_type <> " repair task " <> target.id)
              s
      ]

  unfoldable pub requeue_validation_failure_owner_repair : Candidate → Store → Step
  unfolding route_to
  requeue_validation_failure_owner_repair candidate s =
      let t = candidate.task in
      let code = or_empty t.blocker_code in
      let failure_context = context_of t in
      let target_task_type = repair_task_type failure_context in
      let summary =
        if target_task_type == "engineering.qa.author"
        then "Route QA-owned validation failure to QA-author repair."
        else "Route validation failure to implementer repair." in
      if not (code == "engineering.qa_verify_failed" || code == "engineering.qa_usertest_failed")
      then none
      else elim (latest_task_by_type s target_task_type) [
        | none ↦ none
        | some target ↦
            route_to candidate target target_task_type code
              (record (routed_context code target target_task_type code (or_empty t.blocker_reason)
                failure_context summary) { validator_task_id = some t.id })
              ("routed " <> code <> " to " <> target_task_type <> " repair task " <> target.id) s
      ]
