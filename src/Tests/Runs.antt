-- ===== src/Tests/Runs.antt =====
-- The theorems on the status of a feature and on whole runs, at the sample stores.
use pgloom_engineering.Base.{
  List, ◌≤◌, ◌≡◌, refl, ◌≢◌, ◌↔◌, none, some, [], ◌∷◌, contains, any, All, length,
}
use pgloom_engineering.Workflow.Rows.{Store, Feature, TaskRow, TaskState}
use pgloom_engineering.Workflow.Status.{
  done, terminal_status_of, terminal_status, ready_slots, update_terminal_feature_state, with_state,
}
use pgloom_engineering.Workflow.Status.Done.{IsSettled, terminal_status-done_iff}
use pgloom_engineering.Workflow.Status.Slots.{
  wants, AreDistinct, IsRanked, contains-ready_slots, ready_slots_order,
}
use pgloom_engineering.Workflow.Run.{recovery_step, run_workflow}
use pgloom_engineering.Workflow.Run.Rounds.{Rounds}
use pgloom_engineering.Workflow.Run.Outcomes.{
  run_workflow-terminal, run_workflow-step_limit, run_workflow-done,
}
use pgloom_engineering.Tests.Samples.{done_task, queued_task, store, report, driver}

abbrev finished : Store
finished = store (done_task ∷ [])

abbrev final : Store
final = record finished { feature = with_state "ready_for_finalization" finished.feature }

abbrev working : Store
working = store (done_task ∷ queued_task ∷ [])

-- The done task, the same work set aside by a recovery before, and work of a stale live evaluation.
abbrev settled_tasks : List TaskRow
settled_tasks =
    done_task
    ∷ record done_task {
      id = "earlier";
      state = TaskState.abandoned;
      terminal_reason = some "stale_worker_lease";
    }
    ∷ record queued_task {
      state = TaskState.abandoned;
      terminal_reason = some "stale_live_eval_worker";
    }
    ∷ []

settled_tasks_done : terminal_status_of settled_tasks ≡ some done
unfolding terminal_status_of
settled_tasks_done = refl

terminal_status-done_iff_example :
    (terminal_status_of settled_tasks ≡ some done)
    ↔ ((settled_tasks ≢ []) × All (IsSettled settled_tasks) settled_tasks)
terminal_status-done_iff_example = terminal_status-done_iff settled_tasks

contains-ready_slots_example :
    contains (ready_slots working) "implementer" ≡ any (wants "implementer") working.tasks
contains-ready_slots_example = contains-ready_slots working "implementer"

ready_slots_order_example : AreDistinct (ready_slots working) × IsRanked (ready_slots working)
ready_slots_order_example = ready_slots_order working

run_workflow-terminal_example :
    (s : Store) × (terminal_status s ≡ some done)
    × (recovery_step driver s ≡ none)
    × (final ≡ update_terminal_feature_state done s)
unfolding run_workflow pgloom_engineering.Workflow.Stale.recover_stale_running_tasks
    pgloom_engineering.Workflow.Milestones.consume_replan_from_milestone
    pgloom_engineering.Workflow.Recovery.active_planner_exists
    pgloom_engineering.Workflow.Replan.replan_blocked_feature
    pgloom_engineering.Workflow.Recovery.recoverable_blocked_task
    pgloom_engineering.Workflow.Restore.restore_recovery_abandoned_tasks terminal_status
    update_terminal_feature_state
run_workflow-terminal_example = run_workflow-terminal driver 4 finished done [] final refl

run_workflow-step_limit_example :
    Rounds driver 2 [] working (report ∷ report ∷ []) working × (2 ≤ length (report ∷ report ∷ []))
unfolding run_workflow pgloom_engineering.Workflow.Stale.recover_stale_running_tasks
    pgloom_engineering.Workflow.Milestones.consume_replan_from_milestone
    pgloom_engineering.Workflow.Recovery.active_planner_exists
    pgloom_engineering.Workflow.Replan.replan_blocked_feature
    pgloom_engineering.Workflow.Recovery.recoverable_blocked_task
    pgloom_engineering.Workflow.Restore.restore_recovery_abandoned_tasks terminal_status ready_slots
run_workflow-step_limit_example =
    run_workflow-step_limit driver 2 working (report ∷ report ∷ []) working refl

run_workflow-done_example :
    (final.tasks ≢ [])
    × All (IsSettled final.tasks) final.tasks
    × ((f : Feature) × (final.feature ≡ some f) × (f.state ≡ "ready_for_finalization"))
unfolding run_workflow pgloom_engineering.Workflow.Stale.recover_stale_running_tasks
    pgloom_engineering.Workflow.Milestones.consume_replan_from_milestone
    pgloom_engineering.Workflow.Recovery.active_planner_exists
    pgloom_engineering.Workflow.Replan.replan_blocked_feature
    pgloom_engineering.Workflow.Recovery.recoverable_blocked_task
    pgloom_engineering.Workflow.Restore.restore_recovery_abandoned_tasks terminal_status
    update_terminal_feature_state
run_workflow-done_example = run_workflow-done driver 4 finished [] final refl
