-- ===== src/Workflow/Recovery.antt =====
-- Which blocked task the driver recovers, and how often it has done so already.
pub mod Budget
use mathlib.Core.List.{reverse}
use pgloom_engineering.Base.{
  ℕ, ◌+◌, max, String, ◌==◌, Bool, true, false, not, ◌&&◌, ◌||◌, Option, none, some, List, [], ◌∷◌,
  ltb, leb, if◌then◌else◌, any, find, contains, is_nonempty, or_empty, nonempty, length, filter,
}
use pgloom_engineering.Settings.{Settings}
use pgloom_engineering.Workflow.Texts.{Texts}
use pgloom_engineering.Workflow.Rows.{
  TaskRow, Action, corrective_slice, repair_task, RecoveryAction, InputContract, TaskContractRow,
  PlanRow, Store, Candidate, is_terminal, is_blocked, or_one,
}

unfoldable pub active_planner_exists : Store → Bool
active_planner_exists s =
    any (λ t. t.task_type == "engineering.plan" && not (is_terminal t.state || is_blocked t.state))
      s.tasks

-- `action in {"corrective_slice", "repair_task"}`
abbrev pub is_repair : Action → Bool
is_repair corrective_slice = true
is_repair repair_task = true
is_repair _ = false

-- A finished recovery of the task from the blocker.
unfoldable pub counts_for : String → String → RecoveryAction → Bool
counts_for blocker_code task_id a =
    or_empty a.task_id == task_id
    && a.blocker_code == blocker_code
    && is_repair a.action
    && a.status == "completed"

unfoldable pub completed_recovery_count : Store → String → String → ℕ
unfolding counts_for
completed_recovery_count s blocker_code task_id =
    if blocker_code == ""
    then 0
    else length (filter (counts_for blocker_code task_id) s.recovery_actions)

-- `explicit` is the attempt that a candidate carries; a row of the database has none.
unfoldable pub recovery_attempt : Option ℕ → TaskRow → Store → ℕ
recovery_attempt (some explicit) t s = max 1 explicit
recovery_attempt none t s =
    max (or_one t.attempt) (completed_recovery_count s (or_empty t.blocker_code) t.id + 1)

unfoldable pub total : List ℕ → ℕ
total [] = 0
total (n ∷ ns) = n + total ns

unfoldable pub total_model_input_tokens : Store → ℕ
unfolding total
total_model_input_tokens s = total s.input_tokens

unfoldable pub task_by_id : Store → String → Option TaskRow
task_by_id s task_id = find (λ t. t.id == task_id) s.tasks

unfoldable pub latest_task_by_type : Store → String → Option TaskRow
latest_task_by_type s task_type = find (λ t. t.task_type == task_type) (reverse s.tasks)

abbrev pub input_contract_of : Option TaskContractRow → Option InputContract
input_contract_of none = none
input_contract_of (some row) = row.input_contract

unfoldable pub task_contract_for_task : Store → String → Option InputContract
task_contract_for_task s task_id =
    if task_id == ""
    then none
    else input_contract_of (find (λ row. or_empty row.task_id == task_id) s.task_contracts)

unfoldable pub blocked_task_type : TaskRow → Option InputContract → Option String
blocked_task_type t none = nonempty (some t.task_type)
blocked_task_type t (some c) =
    if is_nonempty c.task_type then some c.task_type else nonempty (some t.task_type)

unfoldable pub blocked_slice_id : Option InputContract → Option String
blocked_slice_id none = none
blocked_slice_id (some c) = nonempty c.task_slice_id

abbrev pub plan_id : Option PlanRow → Option String
plan_id none = none
plan_id (some row) = row.id

-- The active row with an id; `plan_contracts` is also what `active_plan_contract` is taken from.
unfoldable pub active_plan_contract_id : Store → Option String
active_plan_contract_id s =
    plan_id (find (λ row. row.active && is_nonempty (or_empty row.id)) s.plan_contracts)

module _ (texts : Texts) (settings : Settings) where
  open settings use {
    workflow_replan_after_blocked_attempts as max_attempts,
    workflow_replan_after_input_tokens as max_input_tokens,
    workflow_same_role_repair_blocker_codes as same_role_codes,
    workflow_replan_immediate_blocker_codes as immediate_codes,
    workflow_replan_blocker_codes as recoverable_codes,
  }

  unfoldable pub has_repair_evidence : TaskRow → Bool
  has_repair_evidence t =
      contains same_role_codes (or_empty t.blocker_code) && is_nonempty (texts.failure_context t)

  -- The attempt that the next recovery of the blocked task would be.
  unfoldable pub next_recovery_attempt : Store → TaskRow → ℕ
  unfolding has_repair_evidence
  next_recovery_attempt s t =
      let code = or_empty t.blocker_code in
      let completed = completed_recovery_count s code t.id in
      if contains immediate_codes code
        || code == "engineering.worker_crash"
        || has_repair_evidence t
      then completed + 1
      else max (or_one t.attempt) (completed + 1)

  unfoldable pub is_recoverable : Store → TaskRow → Bool
  unfolding next_recovery_attempt
  is_recoverable s t =
      let code = or_empty t.blocker_code in
      let attempt = next_recovery_attempt s t in
      is_blocked t.state
      && contains recoverable_codes code
      && not (ltb max_attempts attempt)
      && (contains immediate_codes code
          || has_repair_evidence t
          || leb max_attempts attempt
          || leb max_input_tokens (total_model_input_tokens s))

  abbrev pub candidate_from : Store → Option TaskRow → Option Candidate
  candidate_from s none = none
  candidate_from s (some t) =
      some (record { task = t; recovery_attempt = next_recovery_attempt s t })

  -- The loop continues on to the first recoverable task.
  unfoldable pub recoverable_blocked_task : Store → Option Candidate
  unfolding is_recoverable
  recoverable_blocked_task s = candidate_from s (find (is_recoverable s) s.tasks)
