-- ===== src/Worker/Claimed.antt =====
-- `run_once` of worker.py from a claimed task on: the gate, the handler, the gate behind it, and how
-- the task, the run of the worker and the locks end. The handler is a parameter: it changes the desk
-- and returns a result or raises an exception. Of the result of a crash only its message is kept.
pub mod Settled
pub mod Approved
pub mod Raised
use pgloom_engineering.Base.{
  ℕ, String, ◌<>◌, ◌==◌, ◌≡◌, ◌⊎◌, Bool, true, false, not, ◌&&◌, ◌||◌, Option, none, some, List, [],
  ◌∷◌, ◌++◌, if◌then◌else◌, contains, or_empty, ltb,
}
use pgloom_engineering.Base.Json.{Json, Fields, null, object, string, end, field}
use pgloom_engineering.Contracts.{Checked, ok, value_error}
use pgloom_engineering.Workflow.Rows.{
  TaskState, queued, leased, running, blocked, done, failed, awaiting_approval, TaskRow, WorkerRun,
  ResourceLock, or_one, Action, block_execution, record_crash,
}
use pgloom_engineering.Worker.Gate.{Reading, Block, pre_execution_gate}
use pgloom_engineering.Worker.Desk.{
  Desk, TaskRuntime, with_task, record_recovery, finish_worker_run, release_task_resource_locks,
}
use pgloom_engineering.Worker.Outputs.{
  HandlerResult, Validators, blocked_with_recovery, persist_qa_result_contract, validator_types,
}
use pgloom_engineering.Worker.PostGate.{post_execution_gate}

-- What the worker relies on: a transition gives the row the state, and a retry queues the task or
-- fails it.
pub record Settles (runtime : TaskRuntime) : Type 0 where
  pub transition :
      (state : TaskState) (code reason : Option String) (result : Option Fields) (t : TaskRow)
      → (runtime.transition_task state code reason result t).state ≡ state
  pub retry :
      (reason : String) (t : TaskRow)
      → ((runtime.retry_or_fail_task reason t).state ≡ queued)
        ⊎ ((runtime.retry_or_fail_task reason t).state ≡ failed)

-- How `run_once` ends: with the status that it reports, or by an exception of its own.
pub data Ran : Type 0 where
  ended : Desk → String → Ran
  raised : Desk → String → Ran

abbrev pub Handler : Type 0
Handler = Desk → Desk × Checked HandlerResult

-- `result.blocker_code or default`
abbrev pub or_default : String → Option String → String
or_default default none = default
or_default default (some s) = if s == "" then default else s

-- `result.blocker_reason or result.message`
abbrev pub or_message : Option String → Option String → Option String
or_message none message = message
or_message (some s) message = if s == "" then message else some s

module _ (v : Validators) (runtime : TaskRuntime) (task : TaskRow) where
  abbrev worker_crash_result : String → Fields
  worker_crash_result exc =
      field "worker_crash" (object (field "message" (string ("worker crash: " <> exc)) end)) end

  -- `_retry_or_block_worker_crash`
  unfoldable pub retry_or_block_worker_crash : String → Desk → Desk × String
  retry_or_block_worker_crash exc d =
      let reason = "worker crash: " <> exc in
      let attempt = or_one task.attempt in
      if ltb attempt (or_one task.max_attempts)
        && ltb attempt (runtime.policy_attempts task.payload)
      then (with_task (runtime.retry_or_fail_task reason) d, "retry")
      else (
        with_task
            (runtime.transition_task blocked (some "engineering.worker_crash") (some reason)
              (some (worker_crash_result exc)))
            d,
        "blocked",
      )

  -- The `except` branch.
  unfoldable pub crash_claimed : String → Desk → Ran
  unfolding record_recovery retry_or_block_worker_crash finish_worker_run
      release_task_resource_locks
  crash_claimed exc d =
      let logged =
        record_recovery task "engineering.worker_crash" record_crash ("worker crash: " <> exc) exc
          d in
      let (e, status) = retry_or_block_worker_crash exc logged in
      ended
        (release_task_resource_locks task.id (
          finish_worker_run "crashed" (some "engineering.worker_crash") (some "lifecycle_error")
            (some exc) e))
        status

  -- The end of a blocked task, once the result of a validator is stored.
  unfoldable pub settle_blocked : HandlerResult → Desk → Desk
  unfolding record_recovery finish_worker_run release_task_resource_locks
  settle_blocked r d =
      let code = or_default "engineering.handler_blocked" r.blocker_code in
      let reason = or_message r.blocker_reason r.message in
      let logged =
        record_recovery task code block_execution (or_default "handler blocked execution" reason) ""
          d in
      release_task_resource_locks task.id (
        finish_worker_run "blocked" (some code) none none
          (with_task (runtime.transition_task blocked (some code) reason (some r.result)) logged))

  abbrev pub block_stored : HandlerResult → Desk → Checked Desk → Ran
  block_stored r d (ok e) = ended (settle_blocked r e) "blocked"
  block_stored r d (value_error exc) = raised d exc

  unfoldable pub settle_validated : HandlerResult → Desk → Ran
  unfolding settle_blocked persist_qa_result_contract
  settle_validated r d =
      if contains validator_types task.task_type
      then block_stored r d (persist_qa_result_contract v task r "blocked" d)
      else ended (settle_blocked r d) "blocked"

  unfoldable pub settle_done : HandlerResult → Desk → Desk
  unfolding finish_worker_run release_task_resource_locks
  settle_done r d = release_task_resource_locks task.id (
      finish_worker_run "done" none none none
        (with_task (runtime.transition_task done none none (some r.result)) d))

  unfoldable pub settle_retry : HandlerResult → Desk → Desk
  unfolding finish_worker_run release_task_resource_locks
  settle_retry r d = release_task_resource_locks task.id (
      finish_worker_run "retry" r.blocker_code (some (or_default "handler_retry" r.blocker_code))
        r.message
        (with_task (runtime.retry_or_fail_task (or_default "handler requested retry" r.message)) d))

  unfoldable pub settle_waiting : HandlerResult → Desk → Desk
  unfolding finish_worker_run release_task_resource_locks
  settle_waiting r d = release_task_resource_locks task.id (
      finish_worker_run r.status none none none
        (with_task (runtime.transition_task awaiting_approval none none none) d))

  -- The branches on the status of the result, after the gate behind the handler.
  unfoldable pub settle : HandlerResult → Desk → Ran
  unfolding settle_done settle_validated settle_retry settle_waiting
  settle r d =
      if r.status == "done"
      then ended (settle_done r d) r.status
      else if r.status == "blocked"
      then settle_validated r d
      else if r.status == "retry"
      then ended (settle_retry r d) r.status
      else ended (settle_waiting r d) r.status

  abbrev pub handled : Desk → Checked HandlerResult → Ran
  handled d (value_error exc) = crash_claimed exc d
  handled d (ok r) = let (e, checked) = post_execution_gate v task r d in settle checked e

  -- A user test that passes the gate holds the lock of its project.
  abbrev pub locked : Reading → Desk → Desk
  locked g d =
      if task.task_type == "engineering.qa.verify.usertest"
      then record d {
        resource_locks =
            record {
              resource_key = "engineering:" <> g.project_name <> ":full_app_run";
              task_id = task.id;
            }
            ∷ d.resource_locks;
      }
      else d

  unfoldable pub execute : Handler → Reading → Desk → Ran
  unfolding crash_claimed post_execution_gate settle
  execute handler g d =
      let (e, outcome) =
        handler (with_task (runtime.transition_task running none none none) (locked g d)) in
      handled e outcome

  unfoldable pub refuse : Block → Desk → Ran
  unfolding blocked_with_recovery finish_worker_run
  refuse b d =
      let (e, r) = blocked_with_recovery task b.blocker_code b.action b.rationale d in
      ended
        (finish_worker_run "blocked" r.blocker_code none none (
          with_task
            (runtime.transition_task blocked r.blocker_code r.blocker_reason (some r.result)) e))
        "blocked"

  unfoldable pub run_claimed : Handler → Reading → Desk → Ran
  unfolding pre_execution_gate refuse execute
  run_claimed handler g d = elim (pre_execution_gate g) [
    | some b ↦ refuse b d
    | none ↦ execute handler g d
  ]
