-- ===== src/Workflow/Milestones/Slices.antt =====
-- The slices of a plan around a milestone, and the tasks that carry them out.
use pgloom_engineering.Base.{
  String, ◌==◌, Bool, false, not, ◌&&◌, ◌||◌, Option, none, some, List, [], ◌∷◌, ◌++◌, map,
  if◌then◌else◌, or_empty, nonempty, is_nonempty, filter, find, contains,
}
use pgloom_engineering.Contracts.{MilestoneContract, PlanContract}
use pgloom_engineering.Workflow.Rows.{
  TaskRow, TaskContractRow, InputContract, PlanRow, Store, is_terminal,
}

-- The slices of the milestones in front of the first one with the id.
unfoldable pub slice_ids_before : List MilestoneContract → String → List String
slice_ids_before [] milestone_id = []
slice_ids_before (m ∷ rest) milestone_id =
    let later = slice_ids_before rest milestone_id in
    if m.milestone_id == milestone_id then [] else m.slice_ids ++ later

-- The loop with its flag `include`.
unfoldable pub slice_ids_included : Bool → List MilestoneContract → String → List String
slice_ids_included include [] milestone_id = []
slice_ids_included include (m ∷ rest) milestone_id =
    let included = include || m.milestone_id == milestone_id in
    let later = slice_ids_included included rest milestone_id in
    if included then m.slice_ids ++ later else later

unfoldable pub slice_ids_before_milestone : PlanContract → String → List String
unfolding slice_ids_before
slice_ids_before_milestone plan milestone_id = slice_ids_before plan.milestones milestone_id

unfoldable pub slice_ids_at_or_after_milestone : PlanContract → String → List String
unfolding slice_ids_included
slice_ids_at_or_after_milestone plan milestone_id =
    slice_ids_included false plan.milestones milestone_id

abbrev pub input_slice_id : Option InputContract → String
input_slice_id none = ""
input_slice_id (some c) = or_empty c.task_slice_id

unfoldable pub row_slice_id : TaskContractRow → String
row_slice_id row =
    if is_nonempty (or_empty row.task_slice_id)
    then or_empty row.task_slice_id
    else input_slice_id row.input_contract

unfoldable pub task_ids_for_slice_ids : List TaskContractRow → List String → List String
unfolding row_slice_id
task_ids_for_slice_ids rows slice_ids =
    map (λ row. or_empty row.task_id)
      (filter (λ row. contains slice_ids (row_slice_id row) && is_nonempty (or_empty row.task_id))
        rows)

abbrev pub contract_of : Option PlanRow → Option PlanContract
contract_of none = none
contract_of (some row) = row.contract

abbrev pub row_id : Option PlanRow → Option String
row_id none = none
row_id (some row) = nonempty row.id

abbrev pub active_plan_row : Store → Option PlanRow
active_plan_row s = find (λ row. row.active) s.plan_contracts

abbrev pub terminal_task_ids : List TaskRow → List String
terminal_task_ids tasks =
    map (λ t. t.id) (filter (λ t. is_terminal t.state && is_nonempty t.id) tasks)

-- A stored plan is a validated one, and `model_validate` returns it as it is.
unfoldable pub task_ids_at_or_after_milestone : Store → String → List String
unfolding slice_ids_at_or_after_milestone task_ids_for_slice_ids
task_ids_at_or_after_milestone s milestone_id = elim (contract_of (active_plan_row s)) [
  | none ↦ []
  | some plan ↦
      filter (λ task_id. not (contains (terminal_task_ids s.tasks) task_id))
        (task_ids_for_slice_ids s.task_contracts
          (slice_ids_at_or_after_milestone plan milestone_id))
]
