-- ===== src/Workflow/Replan/Corrective.antt =====
-- The tasks of a feature after a corrective replan.
use pgloom_engineering.Base.{
  ◌+◌, String, ◌==◌, eq_iff, ◌≡◌, refl, ap, sym, ◌∙◌, subst, ◌⊎◌, inl, inr, true, not, ◌&&◌, ◌||◌,
  [], ◌∷◌, ◌++◌, none, map, arith, contains, contains-head, any, any-append_right, All, All-append,
  All-map_of_Has, map-append_lem, Has,
}
use pgloom_engineering.Settings.{Settings}
use pgloom_engineering.Workflow.Texts.{Texts}
use pgloom_engineering.Workflow.Rows.{
  TaskPayload, TaskRow, Store, Candidate, is_terminal, is_blocked,
}
use pgloom_engineering.Workflow.Recovery.{active_planner_exists}
use pgloom_engineering.Workflow.Effects.{
  Runtime, Transitions, Enqueues, enqueue_planner, record_recovery_action,
}
use pgloom_engineering.Workflow.Effects.Abandon.{
  fate, fate-id, fate-excluded, tasks-abandon, tasks-abandon-finished,
}
use pgloom_engineering.Workflow.Replan.{enqueue_corrective_planner, replan_blocked_feature}

contains-singleton : (a b : String) → contains (b ∷ []) a ≡ true → a ≡ b
contains-singleton a b h = ground (arith, eq_iff a b)

module _ (texts : Texts) (runtime : Runtime) (settings : Settings) (candidate : Candidate)
    (payload : TaskPayload) (s : Store) where
  abbrev pub new_planner : TaskRow
  new_planner =
      runtime.enqueue_task s "engineering.plan" "planner" payload (candidate.task.priority + 1) 3

  abbrev row_fate : TaskRow → TaskRow
  row_fate = fate runtime s.tasks (new_planner.id ∷ []) s.now

  tasks-corrective :
      (enqueue_corrective_planner texts runtime settings candidate payload s).0.tasks
      ≡ map row_fate s.tasks ++ new_planner ∷ []
  unfolding enqueue_corrective_planner record_recovery_action enqueue_planner
  tasks-corrective =
      tasks-abandon runtime s.tasks (new_planner.id ∷ [])
        (enqueue_planner runtime payload (candidate.task.priority + 1) s).0
      ∙ map-append_lem row_fate s.tasks (new_planner ∷ [])
      ∙ ap (λ u. map row_fate s.tasks ++ u ∷ [])
          (fate-excluded runtime s.tasks (new_planner.id ∷ []) s.now new_planner
            (contains-head new_planner.id []))

  abbrev pub Replaced : TaskRow → Type 0
  Replaced u = (u.id ≡ new_planner.id) ⊎ (is_terminal u.state ≡ true)

  module _ (transitions : Transitions runtime) where
    fate-Replaced : (u : TaskRow) → Has u s.tasks → Replaced (row_fate u)
    fate-Replaced u m =
        elim (tasks-abandon-finished runtime transitions s.tasks (new_planner.id ∷ []) s.now u m) [
          | inl kept ↦ inl (
              fate-id runtime transitions s.tasks (new_planner.id ∷ []) s.now u
              ∙ contains-singleton u.id new_planner.id kept.0)
          | inr ended ↦ inr ended
        ]

    tasks-Replaced :
        All Replaced (enqueue_corrective_planner texts runtime settings candidate payload s).0.tasks
    tasks-Replaced = subst (All Replaced) (sym tasks-corrective) (
        All-append Replaced (map row_fate s.tasks) (new_planner ∷ [])
          (All-map_of_Has Replaced row_fate s.tasks fate-Replaced) (inl refl, tt))

    module _ (enqueues : Enqueues runtime) where
      new_planner-is_active :
          any
            (λ t.
              t.task_type == "engineering.plan" && not (is_terminal t.state || is_blocked t.state))
            (new_planner ∷ [])
          ≡ true
      new_planner-is_active = rw (
        enqueues.state s "engineering.plan" "planner" payload (candidate.task.priority + 1) 3,
        enqueues.task_type s "engineering.plan" "planner" payload (candidate.task.priority + 1) 3,
      )

      planner_active :
          active_planner_exists
            (enqueue_corrective_planner texts runtime settings candidate payload s).0
          ≡ true
      unfolding active_planner_exists
      planner_active =
          rw (tasks-corrective)
            (any-append_right _ (map row_fate s.tasks) (new_planner ∷ []) new_planner-is_active)

      -- A corrective replan, with a runtime whose transitions set the state asked for and keep the
      -- id, and whose new tasks are queued with the type asked for: each task of the feature then is
      -- the new planner task or terminal, and the next round recovers nothing.
      pub enqueue_corrective_planner-settles :
          All Replaced
            (enqueue_corrective_planner texts runtime settings candidate payload s).0.tasks
          × (replan_blocked_feature texts runtime settings
                (enqueue_corrective_planner texts runtime settings candidate payload s).0
              ≡ none)
      unfolding replan_blocked_feature
      enqueue_corrective_planner-settles = (tasks-Replaced, rw (planner_active))
