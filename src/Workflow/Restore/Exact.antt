-- ===== src/Workflow/Restore/Exact.antt =====
-- Which tasks are unfinished after a restore.
use pgloom_engineering.Base.{
  ℕ, String, ◌≡◌, ap, sym, ◌∙◌, subst, inl, inr, true, false, not, ◌||◌, List, arith, contains, All,
  All-imp, All-map_of_Has, All-at, All-both, Bool-cases, if◌then◌else◌, Option, some, none,
  if-split, any, any-eq-false, filter, is_empty, is_nonempty,
}
use pgloom_engineering.Workflow.Rows.{TaskRow, Store, Report, is_terminal, is_blocked}
use pgloom_engineering.Workflow.Status.{task_id_of}
use pgloom_engineering.Workflow.Effects.{update_rows, update_tasks, record_recovery_action}
use pgloom_engineering.Workflow.Restore.{
  tasks_to_restore, restored, restore_recovery_abandoned_tasks,
}

false≢true' : false ≡ true → ⊥
false≢true' h = cc

-- If anything is restored, all tasks were terminal.
terminal_of_restore :
    (tasks : List TaskRow)
    → is_empty (filter is_nonempty (task_id_of (tasks_to_restore tasks))) ≡ false
    → All (λ t. is_terminal t.state ≡ true) tasks
unfolding tasks_to_restore
terminal_of_restore tasks h = elim (Bool-cases (any (λ t. is_blocked t.state) tasks)) [
  | inl blocked ↦ absurd (false≢true' (sym h ∙ rw (blocked)))
  | inr free ↦
      elim (Bool-cases (any (λ t. not (is_terminal t.state || is_blocked t.state)) tasks)) [
        | inl live ↦ absurd (false≢true' (sym h ∙ rw (free, live)))
        | inr ended ↦
            All-imp tasks (λ t p. ground (arith, p))
              (All-both _ _ tasks (any-eq-false _ tasks free) (any-eq-false _ tasks ended))
      ]
]

abbrev restored_row : List String → ℕ → TaskRow → TaskRow
restored_row ids now t = if contains ids t.id then restored now t else t

restored_row-exact :
    (ids : List String) (now : ℕ) (t : TaskRow)
    → is_terminal t.state ≡ true
    → is_terminal (restored_row ids now t).state ≡ not (contains ids (restored_row ids now t).id)
restored_row-exact ids now t h =
    if-split (λ (v : TaskRow). is_terminal v.state ≡ not (contains ids v.id)) (contains ids t.id)
      (λ back. sym (ap not back)) (λ kept. h ∙ sym (ap not kept))

abbrev pub Exact : Option (Store × Report) → Type 0
Exact none = Unit
Exact (some done) =
    All (λ t. is_terminal t.state ≡ not (contains done.1.task_ids t.id)) done.0.tasks

restore-Exact : (s : Store) → Exact (restore_recovery_abandoned_tasks s)
unfolding restore_recovery_abandoned_tasks update_tasks update_rows record_recovery_action
restore-Exact s =
    let ids = filter is_nonempty (task_id_of (tasks_to_restore s.tasks)) in
    if-split Exact (is_empty ids) (λ _. tt)
      (λ some_id. All-map_of_Has _ (restored_row ids s.now) s.tasks (λ t m.
        restored_row-exact ids s.now t (All-at _ s.tasks (terminal_of_restore s.tasks some_id) m)))

-- If a round restores tasks, then afterwards a task of the feature is unfinished exactly if the
-- report names it.
pub restore_recovery_abandoned_tasks-exact :
    (s s' : Store) (report : Report)
    → restore_recovery_abandoned_tasks s ≡ some (s', report)
    → All (λ t. is_terminal t.state ≡ not (contains report.task_ids t.id)) s'.tasks
restore_recovery_abandoned_tasks-exact s s' report h = subst Exact h (restore-Exact s)
