-- ===== src/Workflow/Status/Done.antt =====
-- When `_terminal_status` reports a feature as done.
use pgloom_engineering.Base.{
  inl, inr, ◌≡◌, refl, ◌≢◌, ◌↔◌, ◌⊎◌, true, false, some, List, [], ◌∷◌, arith, all, All, All-imp,
  all-of_All, filter-eq-nil, filter-nil_of,
}
use pgloom_engineering.Workflow.Rows.{TaskRow, TaskState, is_terminal, is_done, is_human_gate}
use pgloom_engineering.Workflow.Status.Replaced.{
  IsSetAside, is_done_iff, superseded_by_recovery_iff,
}
use pgloom_engineering.Workflow.Status.{
  done, is_reported_block, terminal_task_superseded_by_recovery, is_failed_among,
  all_terminal_status, terminal_status_of,
}

-- Done, or set aside and, where a recovery or a replan did that, replaced.
abbrev pub IsSettled : List TaskRow → TaskRow → Type 0
IsSettled tasks t = (t.state ≡ TaskState.done) ⊎ IsSetAside tasks t

is_terminal-of_settled :
    (tasks : List TaskRow) (t : TaskRow) → IsSettled tasks t → is_terminal t.state ≡ true
is_terminal-of_settled tasks t (inl e) = rw e refl
is_terminal-of_settled tasks t (inr (inl e, h)) = rw e refl
is_terminal-of_settled tasks t (inr (inr e, h)) = rw e refl

-- The code's own tests: done, or superseded by a recovery.
abbrev Passes : List TaskRow → TaskRow → Type 0
Passes tasks t = (is_done t.state ≡ true) ⊎ (terminal_task_superseded_by_recovery t tasks ≡ true)

IsSettled-of_Passes : (tasks : List TaskRow) (t : TaskRow) → Passes tasks t → IsSettled tasks t
IsSettled-of_Passes tasks t (inl h) = inl ((is_done_iff t.state).0 h)
IsSettled-of_Passes tasks t (inr h) = inr ((superseded_by_recovery_iff tasks t).0 h)

Passes-of_IsSettled : (tasks : List TaskRow) (t : TaskRow) → IsSettled tasks t → Passes tasks t
Passes-of_IsSettled tasks t (inl h) = inl ((is_done_iff t.state).1 h)
Passes-of_IsSettled tasks t (inr h) = inr ((superseded_by_recovery_iff tasks t).1 h)

not-blocked : (t : TaskRow) → is_terminal t.state ≡ true → is_reported_block t ≡ false
unfolding is_reported_block
not-blocked t h = ground arith

not-human_gate : (t : TaskRow) → is_terminal t.state ≡ true → is_human_gate t.state ≡ false
not-human_gate t h = ground arith

not-failed_iff :
    (tasks : List TaskRow) (t : TaskRow) → (is_failed_among tasks t ≡ false) ↔ Passes tasks t
unfolding is_failed_among
not-failed_iff tasks t = (λ h. ground arith, λ h. ground arith)

all_terminal_status-done :
    (tasks : List TaskRow)
    → all_terminal_status tasks ≡ done
    → All (λ t. is_failed_among tasks t ≡ false) tasks
unfolding all_terminal_status
all_terminal_status-done tasks h = filter-eq-nil (is_failed_among tasks) tasks (ground arith)

-- The order of the tests: `done` means that all tasks are terminal and none has failed.
terminal_status-done_parts :
    (tasks : List TaskRow)
    → terminal_status_of tasks ≡ some done
    → (tasks ≢ [])
      × (all (λ t. is_terminal t.state) tasks ≡ true)
      × (all_terminal_status tasks ≡ done)
unfolding terminal_status_of
terminal_status-done_parts [] h = cc
terminal_status-done_parts (t ∷ tasks) h = (λ e. cc, ground arith, ground arith)

terminal_status-of_settled :
    (tasks : List TaskRow)
    → tasks ≢ []
    → All (λ t. is_terminal t.state ≡ true) tasks
    → All (λ t. is_failed_among tasks t ≡ false) tasks
    → terminal_status_of tasks ≡ some done
unfolding terminal_status_of all_terminal_status
terminal_status-of_settled [] ne terminal settled = absurd (ne refl)
terminal_status-of_settled (t ∷ tasks) ne terminal settled =
    let all_tasks = t ∷ tasks in
    rw (
      filter-nil_of is_reported_block all_tasks (All-imp all_tasks not-blocked terminal),
      filter-nil_of (λ u. is_human_gate u.state) all_tasks
          (All-imp all_tasks not-human_gate terminal),
      all-of_All (λ u. is_terminal u.state) all_tasks terminal,
      filter-nil_of (is_failed_among all_tasks) all_tasks settled,
    )

-- A feature is reported as done exactly when it has tasks and each of them is done or was set aside
-- (abandoned or superseded), with the reason of a stale live-evaluation worker, or with a reason of
-- a recovery or a replan and another task done that has its type or its slot.
pub terminal_status-done_iff :
    (tasks : List TaskRow)
    → (terminal_status_of tasks ≡ some done) ↔ ((tasks ≢ []) × All (IsSettled tasks) tasks)
terminal_status-done_iff tasks = (
  λ h.
      let (ne, terminal, rest) = terminal_status-done_parts tasks h in
      (
        ne,
        All-imp tasks (λ t k. IsSettled-of_Passes tasks t ((not-failed_iff tasks t).0 k))
            (all_terminal_status-done tasks rest),
      ),
  λ h.
      terminal_status-of_settled tasks h.0 (All-imp tasks (is_terminal-of_settled tasks) h.1)
        (All-imp tasks (λ t p. (not-failed_iff tasks t).1 (Passes-of_IsSettled tasks t p)) h.1),
)
