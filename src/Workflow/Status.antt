-- ===== src/Workflow/Status.antt =====
-- Where a feature stands: `_terminal_status`, `_ready_slots` and `_stalled_status`.
pub mod Done
pub mod Replaced
pub mod Slots
use Prim.Native.String.{compare}
use text.Mathlib.Text.{is_le}
use pgloom_engineering.Base.{
  ℕ, String, ◌==◌, Bool, not, ◌&&◌, ◌||◌, Option, none, some, List, [], ◌∷◌, map, suc, ltb, nat_eq,
  if◌then◌else◌, is_empty, any, all, filter, contains, is_nonempty, or_empty,
}
use pgloom_engineering.Workflow.Rows.{
  TaskRow, Feature, Store, is_terminal, is_blocked, is_human_gate, is_done, is_set_aside,
}

abbrev pub task_id_of : List TaskRow → List String
task_id_of tasks = map (λ t. t.id) tasks

pub data Terminal : Type 0 where
  blocked : List String → Terminal
  human_gate : List String → Terminal
  failed : List String → Terminal
  done : Terminal

-- Blocked, and the row says why.
unfoldable pub is_reported_block : TaskRow → Bool
is_reported_block t =
    is_blocked t.state
    && (is_nonempty (or_empty t.blocker_code) || is_nonempty (or_empty t.blocker_reason))

abbrev pub replacement_required_reasons : List String
replacement_required_reasons =
    "stale_worker_lease" ∷ "workflow_recovery_replan" ∷ "operator_replan_from_milestone" ∷ []

-- Another task that is done, of the same type or the same slot.
unfoldable pub is_replacement_of : TaskRow → TaskRow → Bool
is_replacement_of t other =
    not (other.id == t.id)
    && is_done other.state
    && ((is_nonempty t.task_type && other.task_type == t.task_type)
        || (is_nonempty (or_empty t.slot) && or_empty other.slot == or_empty t.slot))

unfoldable pub terminal_task_superseded_by_recovery : TaskRow → List TaskRow → Bool
unfolding is_replacement_of
terminal_task_superseded_by_recovery t tasks =
    is_set_aside t.state
    && (or_empty t.terminal_reason == "stale_live_eval_worker"
        || (contains replacement_required_reasons (or_empty t.terminal_reason)
            && any (is_replacement_of t) tasks))

-- A terminal task that counts as a failure of the feature.
unfoldable pub is_failed_among : List TaskRow → TaskRow → Bool
unfolding terminal_task_superseded_by_recovery
is_failed_among tasks t =
    not (is_done t.state) && not (terminal_task_superseded_by_recovery t tasks)

unfoldable pub all_terminal_status : List TaskRow → Terminal
unfolding is_failed_among
all_terminal_status tasks =
    let failures = filter (is_failed_among tasks) tasks in
    if is_empty failures then done else failed (task_id_of failures)

unfoldable pub terminal_status_of : List TaskRow → Option Terminal
unfolding is_reported_block all_terminal_status
terminal_status_of tasks =
    let blocks = filter is_reported_block tasks in
    let gates = filter (λ t. is_human_gate t.state) tasks in
    if is_empty tasks
    then none
    else if not (is_empty blocks)
    then some (blocked (task_id_of blocks))
    else if not (is_empty gates)
    then some (human_gate (task_id_of gates))
    else if all (λ t. is_terminal t.state) tasks
    then some (all_terminal_status tasks)
    else none

unfoldable pub terminal_status : Store → Option Terminal
unfolding terminal_status_of
terminal_status s = terminal_status_of s.tasks

abbrev pub preferred_slot_order : List String
preferred_slot_order =
    "planner" ∷ "designer" ∷ "qa-engineer" ∷ "implementer" ∷ "reviewer" ∷ "qa-scrutiny"
    ∷ "qa-usertest" ∷ "historian" ∷ []

-- `slots.index(slot)`, or the length of the list where the slot is not in it.
unfoldable pub index_of : String → List String → ℕ
index_of slot [] = 0
index_of slot (s ∷ slots) = let later = index_of slot slots in if s == slot then 0 else suc later

-- `_slot_order(a) <= _slot_order(b)`, an order of pairs
unfoldable pub slot_le : String → String → Bool
slot_le a b =
    let i = index_of a preferred_slot_order in
    let j = index_of b preferred_slot_order in ltb i j || (nat_eq i j && is_le (compare a b))

-- A task that a worker may still pick up or is working on.
unfoldable pub is_live : TaskRow → Bool
is_live t = not (is_terminal t.state) && not (is_blocked t.state) && not (is_human_gate t.state)

-- A set, in the order of first insertion.
unfoldable pub add_to_set : String → List String → List String
add_to_set slot slots = if contains slots slot then slots else slot ∷ slots

unfoldable pub live_slots : List TaskRow → List String
unfolding is_live add_to_set
live_slots [] = []
live_slots (t ∷ tasks) =
    let rest = live_slots tasks in
    if is_live t && is_nonempty (or_empty t.slot) then add_to_set (or_empty t.slot) rest else rest

unfoldable pub insert_slot : String → List String → List String
unfolding slot_le
insert_slot slot [] = slot ∷ []
insert_slot slot (s ∷ slots) =
    let later = insert_slot slot slots in if slot_le slot s then slot ∷ s ∷ slots else s ∷ later

unfoldable pub sort_slots : List String → List String
unfolding insert_slot
sort_slots [] = []
sort_slots (slot ∷ slots) = insert_slot slot (sort_slots slots)

unfoldable pub ready_slots : Store → List String
unfolding live_slots sort_slots
ready_slots s = sort_slots (live_slots s.tasks)

unfoldable pub stalled_status : Store → List String
stalled_status s = task_id_of (filter (λ t. not (is_terminal t.state)) s.tasks)

-- The state that `_update_terminal_feature_state` gives the feature.
unfoldable pub feature_state_for : Terminal → String
feature_state_for done = "ready_for_finalization"
feature_state_for (human_gate ids) = "awaiting_human"
feature_state_for (blocked ids) = "blocked"
feature_state_for (failed ids) = "failed"

abbrev pub with_state : String → Option Feature → Option Feature
with_state state none = none
with_state state (some f) = some (record f { state = state })

unfoldable pub update_terminal_feature_state : Terminal → Store → Store
unfolding feature_state_for
update_terminal_feature_state status s = record s {
  feature = with_state (feature_state_for status) s.feature;
}
