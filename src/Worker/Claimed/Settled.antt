-- ===== src/Worker/Claimed/Settled.antt =====
-- How a claimed task of worker.py ends.
use pgloom_engineering.Base.{
  String, ◌≡◌, refl, sym, subst, inl, inr, Bool, false, not, Option, none, some, List, [], ◌∷◌,
  arith, any, filter, ltb, ◌&&◌, ◌<>◌, contains, ◌==◌, eq-of_eq, if-split, if-either,
}
use pgloom_engineering.Base.Json.{Fields}
use pgloom_engineering.Contracts.{Checked, ok, value_error}
use pgloom_engineering.Workflow.Rows.{
  TaskState, queued, blocked, done, failed, awaiting_approval, running, or_one, record_crash,
  TaskRow, ResourceLock,
}
use pgloom_engineering.Worker.Gate.{Reading, Block, pre_execution_gate}
use pgloom_engineering.Worker.Desk.{
  Desk, TaskRuntime, with_task, record_recovery, release_task_resource_locks, finish_worker_run,
}
use pgloom_engineering.Worker.Outputs.{
  HandlerResult, Validators, persist_qa_result_contract, validator_types, blocked_with_recovery,
}
use pgloom_engineering.Worker.PostGate.{post_execution_gate}
use pgloom_engineering.Worker.Claimed.{
  Settles, Ran, ended, raised, Handler, run_claimed, refuse, execute, crash_claimed, settle,
  handled, settle_done, settle_validated, settle_retry, settle_waiting, settle_blocked,
  block_stored, retry_or_block_worker_crash, locked, worker_crash_result, or_default,
}

-- The life of a claimed task in short: the state in which the worker leaves it, and the status that
-- it reports. A task waits for an approval only behind a status that is none of the other three.
pub data Reported : TaskState → String → Type 0 where
  finished : Reported done "done"
  stopped : Reported blocked "blocked"
  requeued : Reported queued "retry"
  given_up : Reported failed "retry"
  waiting :
      (status : String)
      → (status == "done") ≡ false
      → (status == "blocked") ≡ false
      → (status == "retry") ≡ false
      → Reported awaiting_approval status

-- The desk after a run: the state of the task belongs to the status reported, and the task holds no
-- lock. An exception of `run_once` itself is reported to nobody.
abbrev pub Settled : TaskRow → Ran → Type 0
Settled task (ended d status) =
    Reported d.task.state status × (any (λ l. l.task_id == task.id) d.resource_locks ≡ false)
Settled task (raised d exc) = Unit

any-filter-not :
    {A : Type 0} (p : A → Bool) (xs : List A) → any p (filter (λ x. not (p x)) xs) ≡ false
any-filter-not p [] = refl
any-filter-not p (x ∷ xs) = ground (arith, any-filter-not p xs)

module _ (v : Validators) (runtime : TaskRuntime) (laws : Settles runtime) (task : TaskRow) where
  retried :
      (reason : String) (t : TaskRow) → Reported (runtime.retry_or_fail_task reason t).state "retry"
  retried reason t = elim (laws.retry reason t) [
    | inl e ↦ subst (λ s. Reported s "retry") (sym e) requeued
    | inr e ↦ subst (λ s. Reported s "retry") (sym e) given_up
  ]

  moved :
      (state : TaskState) (code reason : Option String) (result : Option Fields) (t : TaskRow)
      (status : String)
      → Reported state status
      → Reported (runtime.transition_task state code reason result t).state status
  moved state code reason result t status r =
      subst (λ s. Reported s status) (sym (laws.transition state code reason result t)) r

  unlocked :
      (d : Desk)
      → any (λ l. l.task_id == task.id) (release_task_resource_locks task.id d).resource_locks
        ≡ false
  unfolding release_task_resource_locks
  unlocked d = any-filter-not (λ (l : ResourceLock). l.task_id == task.id) d.resource_locks

  settle_blocked-Settled :
      (r : HandlerResult) (d : Desk)
      → Settled task (ended (settle_blocked v runtime task r d) "blocked")
  unfolding settle_blocked finish_worker_run release_task_resource_locks
  settle_blocked-Settled r d = (
    moved blocked _ _ _ _ "blocked" stopped,
    any-filter-not (λ (l : ResourceLock). l.task_id == task.id) d.resource_locks,
  )

  block_stored-Settled :
      (r : HandlerResult) (d : Desk) (o : Checked Desk)
      → Settled task (block_stored v runtime task r d o)
  block_stored-Settled r d (ok e) = settle_blocked-Settled r e
  block_stored-Settled r d (value_error exc) = tt

  settle_validated-Settled :
      (r : HandlerResult) (d : Desk) → Settled task (settle_validated v runtime task r d)
  unfolding settle_validated
  settle_validated-Settled r d =
      if-either (Settled task) (contains validator_types task.task_type)
        (block_stored-Settled r d (persist_qa_result_contract v task r "blocked" d))
        (settle_blocked-Settled r d)

  settle-Settled : (r : HandlerResult) (d : Desk) → Settled task (settle v runtime task r d)
  unfolding settle settle_done settle_retry settle_waiting release_task_resource_locks
      finish_worker_run
  settle-Settled r d =
      let free = any-filter-not (λ (l : ResourceLock). l.task_id == task.id) d.resource_locks in
      if-split (Settled task) (r.status == "done")
        (λ h. (
          subst
              (λ s.
                Reported (runtime.transition_task done none none (some r.result) d.task).state s)
              (sym (eq-of_eq r.status "done" h))
              (moved done none none (some r.result) d.task "done" finished),
          free,
        ))
        (λ h.
          if-split (Settled task) (r.status == "blocked") (λ k. settle_validated-Settled r d)
            (λ k.
              if-split (Settled task) (r.status == "retry")
                (λ l. (
                  subst
                      (λ s.
                        Reported
                          (runtime.retry_or_fail_task
                            (or_default "handler requested retry" r.message) d.task).state
                          s)
                      (sym (eq-of_eq r.status "retry" l))
                      (retried (or_default "handler requested retry" r.message) d.task),
                  free,
                ))
                (λ l. (
                  moved awaiting_approval none none none d.task r.status (waiting r.status h k l),
                  free,
                ))))

  retry_or_block-Reported :
      (exc : String) (d : Desk)
      → let (e, status) = retry_or_block_worker_crash v runtime task exc d in
        Reported e.task.state status
  unfolding retry_or_block_worker_crash
  retry_or_block-Reported exc d =
      if-either (λ (x : Desk × String). Reported x.0.task.state x.1)
        (ltb (or_one task.attempt) (or_one task.max_attempts)
          && ltb (or_one task.attempt) (runtime.policy_attempts task.payload))
        (retried ("worker crash: " <> exc) d.task)
        (moved blocked (some "engineering.worker_crash") (some ("worker crash: " <> exc))
          (some (worker_crash_result v runtime task exc)) d.task "blocked" stopped)

  crash_claimed-Settled :
      (exc : String) (d : Desk) → Settled task (crash_claimed v runtime task exc d)
  unfolding crash_claimed release_task_resource_locks finish_worker_run
  crash_claimed-Settled exc d =
      let logged =
        record_recovery task "engineering.worker_crash" record_crash ("worker crash: " <> exc) exc
          d in
      (
        retry_or_block-Reported exc logged,
        any-filter-not (λ (l : ResourceLock). l.task_id == task.id)
            (retry_or_block_worker_crash v runtime task exc logged).0.resource_locks,
      )

  handled-Settled :
      (d : Desk) (o : Checked HandlerResult) → Settled task (handled v runtime task d o)
  handled-Settled d (value_error exc) = crash_claimed-Settled exc d
  handled-Settled d (ok r) =
      settle-Settled (post_execution_gate v task r d).1 (post_execution_gate v task r d).0

  refuse-Settled :
      (b : Block) (d : Desk)
      → any (λ l. l.task_id == task.id) d.resource_locks ≡ false
      → Settled task (refuse v runtime task b d)
  unfolding refuse blocked_with_recovery finish_worker_run
  refuse-Settled b d free = (moved blocked _ _ _ d.task "blocked" stopped, free)

  execute-Settled :
      (handler : Handler) (g : Reading) (d : Desk)
      → Settled task (execute v runtime task handler g d)
  unfolding execute
  execute-Settled handler g d =
      let (e, outcome) =
        handler (
          with_task (runtime.transition_task running none none none) (locked v runtime task g d)) in
      handled-Settled e outcome

  -- With a task runtime whose transitions set the state asked for and whose retries queue or fail
  -- the task: the run of a claimed task that holds no lock, unless it raises an exception, leaves
  -- the task in a state that the life of a claimed task allows for the reported status (done for
  -- done, blocked for blocked, queued or failed for retry, awaiting approval only for any other
  -- status), and without a lock.
  pub run_claimed-Settled :
      (handler : Handler) (g : Reading) (d : Desk)
      → any (λ l. l.task_id == task.id) d.resource_locks ≡ false
      → Settled task (run_claimed v runtime task handler g d)
  unfolding run_claimed
  run_claimed-Settled handler g d free =
      elim (pre_execution_gate g)
        as (λ o. Settled task (elim o as (λ _. Ran) [
          | some b ↦ refuse v runtime task b d
          | none ↦ execute v runtime task handler g d
        ])) [ some b ↦ refuse-Settled b d free | none ↦ execute-Settled handler g d ]
