-- ===== src/Tests/Recoveries.antt =====
-- The theorems on recoveries at the sample stores.
use pgloom_engineering.Base.{
  ◌+◌, ◌≤◌, ◌<◌, ◌≡◌, refl, ◌⊎◌, inl, inr, not, true, none, some, [], ◌∷◌, ◌++◌, contains, or_empty,
  All, Has,
}
use pgloom_engineering.Settings.{default_settings}
use pgloom_engineering.Workflow.Rows.{Store, Report, Intervention, is_terminal, is_blocked}
use pgloom_engineering.Workflow.Recovery.{completed_recovery_count, recoverable_blocked_task}
use pgloom_engineering.Workflow.Recovery.Budget.{recoverable_blocked_task-within_budget}
use pgloom_engineering.Workflow.Repair.{Step, requeue_review_target_repair}
use pgloom_engineering.Workflow.SameRole.{requeue_same_role_repair}
use pgloom_engineering.Workflow.SameRole.Counting.{
  routed_repair-uncounted, requeue_same_role_repair-counted,
}
use pgloom_engineering.Workflow.Replan.{enqueue_corrective_planner, replan_blocked_feature}
use pgloom_engineering.Workflow.Replan.Corrective.{Replaced, enqueue_corrective_planner-settles}
use pgloom_engineering.Workflow.Restore.{restore_recovery_abandoned_tasks}
use pgloom_engineering.Workflow.Restore.Exact.{restore_recovery_abandoned_tasks-exact}
use pgloom_engineering.Workflow.Milestones.{
  slice_ids_before_milestone, slice_ids_at_or_after_milestone, replan_from, supersede_row,
  consume_replan_from_milestone,
}
use pgloom_engineering.Workflow.Milestones.Prefix.{
  milestone_slice_ids, slice_ids_before-at_or_after, replan_from-supersedes, replan_from-keeps,
  consume_replan_from_milestone-once,
}
use pgloom_engineering.Tests.Samples.{
  plan, plan_payload, done_task, queued_task, set_aside_task, rejected_task, broken_task, store,
  candidate, texts, runtime, transitions, enqueues, report,
}

abbrev broken : Store
broken = store (done_task ∷ broken_task ∷ queued_task ∷ [])

abbrev rejected : Store
rejected = store (done_task ∷ rejected_task ∷ [])

recoverable_blocked_task-within_budget_example :
    Has rejected_task rejected.tasks
    × (is_blocked rejected_task.state ≡ true)
    × (completed_recovery_count rejected (or_empty rejected_task.blocker_code) rejected_task.id < 1)
    × (1 ≤ 3)
unfolding recoverable_blocked_task completed_recovery_count
recoverable_blocked_task-within_budget_example =
    recoverable_blocked_task-within_budget texts default_settings rejected (candidate rejected_task)
      refl

enqueue_corrective_planner-settles_example :
    All
      (Replaced texts runtime default_settings (candidate broken_task) plan_payload broken)
      (enqueue_corrective_planner texts runtime default_settings
        (candidate broken_task)
        plan_payload
        broken).0.tasks
    × (replan_blocked_feature texts runtime default_settings
          (enqueue_corrective_planner texts runtime default_settings
            (candidate broken_task)
            plan_payload
            broken).0
        ≡ none)
enqueue_corrective_planner-settles_example =
    enqueue_corrective_planner-settles texts runtime default_settings (candidate broken_task)
      plan_payload broken transitions enqueues

-- What a step leaves and reports, where it applies.
abbrev store_of : Step → Store
store_of none = store []
store_of (some d) = d.0

abbrev report_of : Step → Report
report_of none = report
report_of (some d) = d.1

abbrev restored_step : Step
restored_step = restore_recovery_abandoned_tasks (store (done_task ∷ set_aside_task ∷ []))

restore_recovery_abandoned_tasks-exact_example :
    All
      (λ t. is_terminal t.state ≡ not (contains (report_of restored_step).task_ids t.id))
      (store_of restored_step).tasks
unfolding restore_recovery_abandoned_tasks
restore_recovery_abandoned_tasks-exact_example =
    restore_recovery_abandoned_tasks-exact (store (done_task ∷ set_aside_task ∷ []))
      (store_of restored_step) (report_of restored_step) refl

abbrev routed : Step
routed =
    requeue_review_target_repair texts runtime default_settings (candidate rejected_task) rejected

routed_repair-uncounted_example :
    completed_recovery_count (store_of routed) "engineering.review_rejected" "t4"
    ≡ completed_recovery_count rejected "engineering.review_rejected" "t4"
unfolding requeue_review_target_repair pgloom_engineering.Workflow.Recovery.latest_task_by_type
    pgloom_engineering.Workflow.Texts.repair_task_type
    pgloom_engineering.Workflow.Texts.joined_context
    pgloom_engineering.Workflow.Recovery.recovery_attempt
routed_repair-uncounted_example =
    routed_repair-uncounted texts runtime default_settings (candidate rejected_task) rejected
      (store_of routed) (report_of routed) "engineering.review_rejected" refl refl (inl refl)

abbrev repaired : Step
repaired = requeue_same_role_repair texts runtime default_settings (candidate broken_task) broken

requeue_same_role_repair-counted_example :
    completed_recovery_count
      (store_of repaired)
      "engineering.implementation_verification_failed"
      "t5"
    ≡ completed_recovery_count broken "engineering.implementation_verification_failed" "t5" + 1
unfolding requeue_same_role_repair pgloom_engineering.Workflow.Recovery.recovery_attempt
requeue_same_role_repair-counted_example =
    requeue_same_role_repair-counted texts runtime default_settings (candidate broken_task) broken
      (store_of repaired) (report_of repaired) refl refl

abbrev request : Intervention
request = record {
  id = "i1";
  action_type = "replan_from_milestone";
  milestone_id = some "m2";
  reason = none;
}

abbrev requested : Store
requested = record (store (done_task ∷ queued_task ∷ [])) { operator_interventions = request ∷ [] }

slice_ids_before-at_or_after_example :
    slice_ids_before_milestone plan "m2" ++ slice_ids_at_or_after_milestone plan "m2"
    ≡ milestone_slice_ids plan.milestones
slice_ids_before-at_or_after_example = slice_ids_before-at_or_after plan "m2"

replan_from-supersedes_example :
    (is_terminal (supersede_row 9 queued_task).state ≡ true)
    ⊎ ((supersede_row 9 queued_task).id ≡ "p1")
unfolding replan_from
replan_from-supersedes_example =
    replan_from-supersedes runtime request plan_payload requested (supersede_row 9 queued_task)
      (inr (inl refl)) refl

replan_from-keeps_example :
    Has done_task (replan_from runtime request plan_payload requested).0.tasks
unfolding replan_from
replan_from-keeps_example =
    replan_from-keeps runtime request plan_payload requested done_task (inl refl) refl

abbrev replanned : Step
replanned = consume_replan_from_milestone runtime requested

consume_replan_from_milestone-once_example :
    consume_replan_from_milestone runtime (store_of replanned) ≡ none
unfolding consume_replan_from_milestone pgloom_engineering.Workflow.Recovery.active_planner_exists
consume_replan_from_milestone-once_example =
    consume_replan_from_milestone-once runtime enqueues requested (store_of replanned)
      (report_of replanned) refl
