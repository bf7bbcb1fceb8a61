-- ===== src/Workflow/Status/Replaced.antt =====
-- What `_terminal_task_superseded_by_recovery` asks of a task that was set aside, in terms of the
-- rows alone.
use pgloom_engineering.Base.{
  same_iff, differs_iff, both_iff, either_iff, not_iff, last_iff, any_iff, ◌≡◌, refl, ◌≢◌, ◌↔◌, ◌⊎◌,
  inl, inr, true, String, List, Any, contains, or_empty,
}
use pgloom_engineering.Workflow.Rows.{TaskRow, TaskState, is_done, is_set_aside}
use pgloom_engineering.Workflow.Status.{
  is_replacement_of, replacement_required_reasons, terminal_task_superseded_by_recovery,
}

-- The row `other` is another task that is done, of the type or the slot that `t` names.
abbrev pub IsReplacement : TaskRow → TaskRow → Type 0
IsReplacement t other =
    ((other.id ≢ t.id) × (other.state ≡ TaskState.done))
    × (((t.task_type ≢ "") × (other.task_type ≡ t.task_type))
        ⊎ ((or_empty t.slot ≢ "") × (or_empty other.slot ≡ or_empty t.slot)))

-- The reasons with which a recovery or a replan sets a task aside that is to be done again.
abbrev pub NeedsReplacement : String → Type 0
NeedsReplacement reason =
    (reason ≡ "stale_worker_lease")
    ⊎ ((reason ≡ "workflow_recovery_replan") ⊎ (reason ≡ "operator_replan_from_milestone"))

-- The task was set aside: as the work of a stale live-evaluation worker, which nothing replaces, or
-- by a recovery or a replan, and a replacement is done.
abbrev pub IsSetAside : List TaskRow → TaskRow → Type 0
IsSetAside tasks t =
    ((t.state ≡ TaskState.abandoned) ⊎ (t.state ≡ TaskState.superseded))
    × ((or_empty t.terminal_reason ≡ "stale_live_eval_worker")
        ⊎ (NeedsReplacement (or_empty t.terminal_reason) × Any (IsReplacement t) tasks))

is_done-done : (state : TaskState) → is_done state ≡ true → state ≡ TaskState.done
is_done-done TaskState.done h = refl
is_done-done state h = cc

is_set_aside-cases :
    (state : TaskState)
    → is_set_aside state ≡ true
    → (state ≡ TaskState.abandoned) ⊎ (state ≡ TaskState.superseded)
is_set_aside-cases TaskState.abandoned h = inl refl
is_set_aside-cases TaskState.superseded h = inr refl
is_set_aside-cases state h = cc

pub is_done_iff : (state : TaskState) → (is_done state ≡ true) ↔ (state ≡ TaskState.done)
is_done_iff state = (is_done-done state, λ h. rw h refl)

is_set_aside_iff :
    (state : TaskState)
    → (is_set_aside state ≡ true) ↔ ((state ≡ TaskState.abandoned) ⊎ (state ≡ TaskState.superseded))
is_set_aside_iff state =
    (is_set_aside-cases state, λ h. elim h [ inl e ↦ rw e refl | inr e ↦ rw e refl ])

is_replacement_of_iff :
    (t other : TaskRow) → (is_replacement_of t other ≡ true) ↔ IsReplacement t other
unfolding is_replacement_of
is_replacement_of_iff t other =
    both_iff _ _ _ _
      (both_iff _ _ _ _ (not_iff _ _ (differs_iff other.id t.id)) (is_done_iff other.state))
      (either_iff _ _ _ _
        (both_iff _ _ _ _ (not_iff _ _ (differs_iff t.task_type ""))
          (same_iff other.task_type t.task_type))
        (both_iff _ _ _ _ (not_iff _ _ (differs_iff (or_empty t.slot) ""))
          (same_iff (or_empty other.slot) (or_empty t.slot))))

NeedsReplacement-iff :
    (reason : String)
    → (contains replacement_required_reasons reason ≡ true) ↔ NeedsReplacement reason
NeedsReplacement-iff reason = either_iff _ _ _ _ (same_iff reason "stale_worker_lease") (
    either_iff _ _ _ _ (same_iff reason "workflow_recovery_replan")
      (last_iff _ _ (same_iff reason "operator_replan_from_milestone")))

-- `_terminal_task_superseded_by_recovery` finds exactly the tasks that were set aside.
pub superseded_by_recovery_iff :
    (tasks : List TaskRow) (t : TaskRow)
    → (terminal_task_superseded_by_recovery t tasks ≡ true) ↔ IsSetAside tasks t
unfolding terminal_task_superseded_by_recovery
superseded_by_recovery_iff tasks t =
    let reason = or_empty t.terminal_reason in
    both_iff _ _ _ _ (is_set_aside_iff t.state) (
      either_iff _ _ _ _ (same_iff reason "stale_live_eval_worker") (
        both_iff _ _ _ _ (NeedsReplacement-iff reason)
          (any_iff (is_replacement_of t) (IsReplacement t) tasks (is_replacement_of_iff t))))
