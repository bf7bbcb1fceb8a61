-- ===== src/Workflow/Stale.antt =====
-- `_recover_stale_running_tasks`: a task whose lease ran out is blocked as a worker crash.
pub mod Cleared
use pgloom_engineering.Base.{
  ℕ, ◌+◌, ◌*◌, max, String, ◌==◌, Bool, true, false, not, ◌&&◌, ◌||◌, Option, none, some, List, [],
  ◌∷◌, map, ltb, leb, nat_eq, if◌then◌else◌, or_empty, filter,
}
use pgloom_engineering.Base.Json.{Json, Fields, object, null, string, number, end, field}
use pgloom_engineering.Workflow.Rows.{
  TaskState, leased, running, blocked, TaskRow, record_crash, RecoveryAction, WorkerRun, WorkerRow,
  Store, Report, or_one,
}
use pgloom_engineering.Workflow.Effects.{update_tasks, record_recovery_action}

-- `state in ('leased', 'running')`
abbrev pub is_in_flight : TaskState → Bool
is_in_flight leased = true
is_in_flight running = true
is_in_flight _ = false

abbrev pub stale_reason : String
stale_reason =
    "Worker task lease expired before completion; treating stale in-flight worker as recoverable engineering.worker_crash."

-- `coalesce(lease_expires_at, updated_at + lease)`
abbrev pub deadline : ℕ → TaskRow → ℕ
deadline lease_seconds t = elim t.lease_expires_at [
  | none ↦ t.updated_at + max 1 lease_seconds * 1_000_000
  | some expires ↦ expires
]

unfoldable pub is_stale : ℕ → ℕ → TaskRow → Bool
is_stale lease_seconds now t = is_in_flight t.state && ltb (deadline lease_seconds t) now

-- `order by updated_at asc`
unfoldable pub insert_by_age : TaskRow → List TaskRow → List TaskRow
insert_by_age t [] = t ∷ []
insert_by_age t (u ∷ rest) =
    let later = insert_by_age t rest in
    if leb t.updated_at u.updated_at then t ∷ u ∷ rest else u ∷ later

unfoldable pub sort_by_age : List TaskRow → List TaskRow
unfolding insert_by_age
sort_by_age [] = []
sort_by_age (t ∷ rest) = insert_by_age t (sort_by_age rest)

unfoldable pub stale_tasks : ℕ → Store → List TaskRow
unfolding is_stale sort_by_age
stale_tasks lease_seconds s = sort_by_age (filter (is_stale lease_seconds s.now) s.tasks)

-- How the standard library writes out a number, an instant and a JSON object.
pub record Rendering : Type 0 where
  pub numeral : ℕ → String
  pub instant : ℕ → String
  pub dumps : Fields → String

abbrev pub text_or_null : Option String → Json
text_or_null none = null
text_or_null (some s) = string s

abbrev pub instant_or_empty : Rendering → Option ℕ → String
instant_or_empty rendering none = ""
instant_or_empty rendering (some at) = rendering.instant at

-- The result that is stored with the crash.
abbrev pub crash_result : Rendering → TaskRow → Fields
crash_result rendering t =
    field "worker_crash"
      (object (
        field "exception_type" (string "StaleWorkerLease") (
          field "message" (string stale_reason) (
            field "task_id" (string t.id) (
              field "task_type" (string t.task_type) (
                field "attempt" (number (rendering.numeral t.attempt)) (
                  field "lease_owner" (text_or_null t.lease_owner) (
                    field "lease_expires_at"
                      (string (instant_or_empty rendering t.lease_expires_at)) end))))))))
      end

abbrev pub crashed : Rendering → ℕ → TaskRow → TaskRow → TaskRow
crashed rendering now t u = record u {
  state = blocked;
  blocker_code = some "engineering.worker_crash";
  blocker_reason = some stale_reason;
  result = some (crash_result rendering t);
  terminal_reason = some "stale_worker_lease";
  terminal_detail = some stale_reason;
  updated_at = now;
}

-- Whether a run is at least as recent: `order by started_at desc, id desc`
abbrev pub is_newer : WorkerRun → WorkerRun → Bool
is_newer a b = ltb b.started_at a.started_at || (nat_eq a.started_at b.started_at && leb b.id a.id)

unfoldable pub newest : List WorkerRun → Option WorkerRun
newest [] = none
newest (r ∷ rest) = elim (newest rest) [
  | none ↦ some r
  | some best ↦ if is_newer r best then some r else some best
]

abbrev pub crash_run : Option WorkerRun → List WorkerRun → List WorkerRun
crash_run none runs = runs
crash_run (some last) runs =
    map
      (λ r.
        if nat_eq r.id last.id
        then record r {
          status = "crashed";
          blocker_code = some "engineering.worker_crash";
          terminal_reason = some "stale_worker_lease";
          terminal_detail = some stale_reason;
        }
        else r)
      runs

abbrev pub free_worker : String → WorkerRow → WorkerRow
free_worker task_id w =
    if or_empty w.current_task_id == task_id
    then record w { state = "idle"; current_task_id = none }
    else w

-- The writes for one stale task: its row, its last running run, its locks and its worker. The run's
-- times and metadata are left out.
unfoldable pub crash_task : Rendering → TaskRow → Store → Store
unfolding update_tasks newest
crash_task rendering t s =
    let s' = update_tasks (λ u. u.id == t.id) (crashed rendering s.now t) s in
    record s' {
      worker_runs =
          crash_run
            (newest (filter (λ r. r.task_id == t.id && r.status == "running") s.worker_runs))
            s.worker_runs;
      resource_locks = filter (λ l. not (l.task_id == t.id)) s.resource_locks;
      workers = map (free_worker t.id) s.workers;
    }

abbrev pub crash_action : Rendering → TaskRow → RecoveryAction
crash_action rendering t = record {
  task_id = some t.id;
  blocker_code = "engineering.worker_crash";
  action = record_crash;
  status = "open";
  attempt = max 1 (or_one t.attempt);
  max_attempts = max 1 (or_one t.max_attempts);
  rationale = stale_reason;
  outcome = rendering.dumps (crash_result rendering t);
}

abbrev pub crash_report : TaskRow → Report
crash_report t = record {
  slot = or_empty t.slot;
  claimed = true;
  status = "stale_worker_recovered";
  task_ids = t.id ∷ [];
  task_type = none;
  replanned_from_task_id = none;
  operator_intervention_id = none;
  replan_from_milestone_id = none;
  superseded_task_ids = [];
}

unfoldable pub crash_tasks : Rendering → List TaskRow → Store → Store
unfolding crash_task
crash_tasks rendering [] s = s
crash_tasks rendering (t ∷ rest) s = crash_tasks rendering rest (crash_task rendering t s)

unfoldable pub record_crashes : Rendering → List TaskRow → Store → Store
unfolding record_recovery_action
record_crashes rendering [] s = s
record_crashes rendering (t ∷ rest) s =
    record_crashes rendering rest (record_recovery_action (crash_action rendering t) s)

-- One transaction for the rows, then the recovery log. Rows that another session holds are not modelled.
unfoldable pub recover_stale_running_tasks : Rendering → ℕ → Store → Store × List Report
unfolding stale_tasks crash_tasks record_crashes
recover_stale_running_tasks rendering lease_seconds s =
    let rows = stale_tasks lease_seconds s in
    (record_crashes rendering rows (crash_tasks rendering rows s), map crash_report rows)
