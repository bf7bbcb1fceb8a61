-- ===== src/Worker/Signoff.antt =====
-- Milestones of worker.py: when one is signed off, and which tasks wait for it.
pub mod Evidence
pub mod Locks
pub mod Passing
use mathlib.Core.List.{reverse}
use pgloom_engineering.Base.{
  String, ◌<>◌, ◌==◌, Bool, true, false, not, ◌&&◌, ◌||◌, Option, none, some, List, [], ◌∷◌,
  if◌then◌else◌, any, find, contains, is_nonempty, or_empty,
}
use pgloom_engineering.Base.Json.{Json, Fields, object, end, field, get, is_text}
use pgloom_engineering.Contracts.{
  MilestoneContract, PlanContract, SignoffPolicy, scrutiny_only, scrutiny_and_usertest,
}
use pgloom_engineering.Workflow.Rows.{
  InputContract, TaskContractRow, Action, block_execution, retire_superseded,
}

-- A row of `list_qa_signoffs`.
pub record QaSignoff : Type 0 where
  pub milestone_id : String
  pub validator_type : String
  pub verdict : String

abbrev pub is_scrutiny_only : SignoffPolicy → Bool
is_scrutiny_only scrutiny_only = true
is_scrutiny_only scrutiny_and_usertest = false

-- `signoffs` are the rows of the milestone; a result is there for a row whose verdict is `pass`.
unfoldable pub signoff_passed : List QaSignoff → String → Bool
signoff_passed signoffs validator_type =
    any (λ r. r.validator_type == validator_type && r.verdict == "pass") signoffs

unfoldable pub any_passed : List QaSignoff → Bool
any_passed signoffs = any (λ r. r.verdict == "pass") signoffs

abbrev pub has_slice : String → Option InputContract → Bool
has_slice slice_id none = false
has_slice slice_id (some c) = elim c.task_slice_id [ none ↦ false | some s ↦ s == slice_id ]

abbrev pub has_type : String → Option InputContract → Bool
has_type task_type none = false
has_type task_type (some c) = c.task_type == task_type

abbrev pub verdict_of : Option Json → Bool
verdict_of none = false
verdict_of (some v) = elim v [
  | object result ↦ elim (get "verdict" result) [ none ↦ false | some w ↦ is_text w "pass" ]
  | _ ↦ false
]

-- `output_contract["qa_result_contract"]["verdict"] == "pass"`
abbrev pub has_pass : Option Fields → Bool
has_pass none = false
has_pass (some output) = verdict_of (get "qa_result_contract" output)

abbrev pub is_passing_row : String → Option TaskContractRow → Bool
is_passing_row task_type none = false
is_passing_row task_type (some row) =
    row.status == "completed"
    && has_type task_type row.input_contract
    && has_pass row.output_contract

-- `task_by_slice[slice_id]`: the last row of the slice.
unfoldable pub task_by_slice : List TaskContractRow → String → Option TaskContractRow
task_by_slice rows slice_id = find (λ row. has_slice slice_id row.input_contract) (reverse rows)

unfoldable pub validator_passed : List TaskContractRow → List String → String → Bool
unfolding task_by_slice
validator_passed rows slice_ids task_type =
    any (λ slice_id. is_passing_row task_type (task_by_slice rows slice_id)) slice_ids

abbrev pub of_milestone : MilestoneContract → List QaSignoff → List QaSignoff
of_milestone m [] = []
of_milestone m (r ∷ rest) =
    let later = of_milestone m rest in if r.milestone_id == m.milestone_id then r ∷ later else later

abbrev pub milestone_by_id : List MilestoneContract → String → Option MilestoneContract
milestone_by_id milestones id = find (λ m. m.milestone_id == id) milestones

module _ (signoffs : List QaSignoff) (rows : List TaskContractRow) where
  unfoldable pub milestone_signed_off : MilestoneContract → Bool
  unfolding signoff_passed any_passed validator_passed
  milestone_signed_off m =
      let own = of_milestone m signoffs in
      if is_scrutiny_only m.signoff_policy && any_passed own
      then signoff_passed own "scrutiny"
      else if any_passed own
      then signoff_passed own "scrutiny" && signoff_passed own "usertest"
      else if is_scrutiny_only m.signoff_policy
      then validator_passed rows m.slice_ids "engineering.qa.verify.scrutiny"
      else validator_passed rows m.slice_ids "engineering.qa.verify.scrutiny"
        && validator_passed rows m.slice_ids "engineering.qa.verify.usertest"

  -- The loop over the dependencies of a milestone.
  unfoldable pub first_lock : List MilestoneContract → String → List String → Option String
  unfolding milestone_signed_off
  first_lock milestones milestone_id [] = none
  first_lock milestones milestone_id (dep ∷ deps) =
      let later = first_lock milestones milestone_id deps in
      elim (milestone_by_id milestones dep) [
        | none ↦
            some ("Milestone " <> milestone_id <> " depends on missing milestone " <> dep <> ".")
        | some dependency ↦
            if milestone_signed_off dependency
            then later
            else some (
                "Milestone " <> milestone_id <> " is locked until milestone " <> dep
                <> " is signed off.")
      ]

  unfoldable pub milestone_blocker : PlanContract → InputContract → Option String
  unfolding first_lock
  milestone_blocker plan c =
      let id = or_empty c.milestone_id in
      if not (is_nonempty id) then none else elim (milestone_by_id plan.milestones id) [
        | none ↦ none
        | some m ↦ first_lock plan.milestones id m.depends_on
      ]
