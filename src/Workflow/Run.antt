-- ===== src/Workflow/Run.antt =====
-- `run_workflow`: rounds of recovery and dispatch until the feature stops or the steps run out.
pub mod Outcomes
pub mod Rounds
use pgloom_engineering.Base.{
  ℕ, zero, suc, String, Bool, true, false, Option, none, some, List, [], ◌∷◌, ◌++◌, if◌then◌else◌,
  is_empty,
}
use pgloom_engineering.Settings.{Settings}
use pgloom_engineering.Workflow.Texts.{Texts}
use pgloom_engineering.Workflow.Rows.{Feature, Store, Report}
use pgloom_engineering.Workflow.Effects.{Runtime}
use pgloom_engineering.Workflow.Repair.{Step}
use pgloom_engineering.Workflow.Replan.{or_step, replan_blocked_feature}
use pgloom_engineering.Workflow.Restore.{restore_recovery_abandoned_tasks}
use pgloom_engineering.Workflow.Stale.{Rendering, recover_stale_running_tasks}
use pgloom_engineering.Workflow.Milestones.{consume_replan_from_milestone}
use pgloom_engineering.Workflow.Status.{
  Terminal, terminal_status, ready_slots, stalled_status, update_terminal_feature_state,
}

-- The worker that the driver is given: what it leaves, and what it reports for the slot.
abbrev pub Worker : Type 0
Worker = String → Store → Store × Report

pub data Outcome : Type 0 where
  not_found : Outcome
  terminal : Terminal → Outcome
  stalled : List String → Outcome
  step_limit : Outcome

-- What one round of the loop decides: to go on, or to return.
pub data Turn : Type 0 where
  continue : List Report → Store → Turn
  finish : Outcome → List Report → Store → Turn

-- What the environment of a run gives, and how it is called.
pub record Driver : Type 0 where
  pub texts : Texts
  pub runtime : Runtime
  pub settings : Settings
  pub rendering : Rendering
  pub worker : Worker
  pub lease_seconds : ℕ
  pub recover_stale : Bool

module _ (driver : Driver) where
  open driver use {texts, runtime, settings, rendering, worker, lease_seconds, recover_stale}

  -- The loop over the ready slots, up to the first worker that claims a task.
  unfoldable pub dispatch : List String → List Report → Store → Bool × List Report × Store
  dispatch [] steps s = (false, steps, s)
  dispatch (slot ∷ slots) steps s =
      let (s', report) = worker slot s in
      let steps' = steps ++ report ∷ [] in
      let rest = dispatch slots steps' s' in if report.claimed then (true, steps', s') else rest

  -- An operator's replan, a recovery of a blocked task, or a restored task: the first that applies.
  unfoldable pub recovery_step : Store → Step
  recovery_step s = or_step (consume_replan_from_milestone runtime s) (
      or_step (replan_blocked_feature texts runtime settings s)
        (restore_recovery_abandoned_tasks s))

  abbrev pub after_dispatch : Store → Bool × List Report × Store → Turn
  after_dispatch s (true, steps, s') = continue steps s'
  after_dispatch s (false, steps, s') = finish (stalled (stalled_status s)) steps s'

  unfoldable pub work : List Report → Store → Turn
  unfolding dispatch
  work steps s = elim (terminal_status s) [
    | some status ↦ finish (terminal status) steps (update_terminal_feature_state status s)
    | none ↦ after_dispatch s (dispatch (ready_slots s) steps s)
  ]

  unfoldable pub advance : List Report → Store → Turn
  unfolding recovery_step work
  advance steps s = elim (recovery_step s) [
    | some (s', report) ↦ continue (steps ++ report ∷ []) s'
    | none ↦ work steps s
  ]

  -- `if aggregate is None`
  abbrev pub if_found : Option Feature → Turn → Turn → Turn
  if_found none missing found = missing
  if_found (some f) missing found = found

  abbrev pub stale_step : Store → Store × List Report
  stale_step s =
      if recover_stale then recover_stale_running_tasks rendering lease_seconds s else (s, [])

  unfoldable pub round : List Report → Store → Turn
  unfolding advance
  round steps s =
      let (s', recovered) = stale_step s in
      if is_empty recovered
      then if_found s.feature (finish not_found steps s) (advance steps s)
      else continue (steps ++ recovered) s'

  -- `for _ in range(max_steps)`
  unfoldable pub run_loop : ℕ → List Report → Store → Outcome × List Report × Store
  unfolding round
  run_loop zero steps s = (step_limit, steps, s)
  run_loop (suc n) steps s = elim (round steps s) [
    | continue steps' s' ↦ run_loop n steps' s'
    | finish outcome steps' s' ↦ (outcome, steps', s')
  ]

  unfoldable pub run_workflow : ℕ → Store → Outcome × List Report × Store
  unfolding run_loop
  run_workflow max_steps s = run_loop max_steps [] s
