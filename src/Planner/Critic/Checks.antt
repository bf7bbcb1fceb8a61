-- ===== src/Planner/Critic/Checks.antt =====
-- The checks that planner/critic.py runs on a plan itself: `_run_deterministic_check`, and the
-- findings of the checks of milestones, acceptance assertions and the frozen prefix. The checks of
-- the QA slices and of the paths are in a file of their own.
pub mod Content
pub mod Roles
pub mod Writes
pub mod Dispatch
pub mod Achievable
pub mod Order
pub mod Verified
pub mod Signoffs
use Prim.Native.String.{compare}
use text.Mathlib.Text.{is_le}
use pgloom_engineering.Base.{
  ℕ, String, ◌<>◌, Bool, true, false, not, ◌&&◌, ◌||◌, Option, none, some, List, [], ◌∷◌, ◌++◌, map,
  if◌then◌else◌, is_empty, any, filter, join, is_nonempty, flat_map, length, contains, find_last,
  ltb, leb, nat_eq, ◌==◌,
}
use pgloom_engineering.Base.Json.{Json, is_truthy}
use pgloom_engineering.Base.Codes.{lower, mentions_any}
use pgloom_engineering.Contracts.{
  PlanContract, TaskSliceContract, MilestoneContract, SignoffPolicy, scrutiny_and_usertest,
  scrutiny_only, ImplementationTopology, single,
}
use pgloom_engineering.Contracts.Validation.Coverage.{Labels, assertion_labels, claims_of, has_id}
use pgloom_engineering.Planner.Critic.{CriticFinding, finding}
use pgloom_engineering.Planner.Critic.Rubric.{CheckDefinition}
use pgloom_engineering.Planner.Critic.Dependencies.{slice_of}
use pgloom_engineering.Planner.Critic.PlanTexts.{
  Dumps, plan_text, is_lifecycle_text, misses_roadmap_dependency,
  hot_path_shared_api_requires_wrapper_coverage, is_inventory_only, is_small_feature,
  requires_history_update,
}

-- What a check may look at besides the plan.
pub record CheckContext : Type 0 where
  pub dumps : Dumps
  pub error_codes : List String
  pub qa_write_paths : List String
  pub baseline_plan : Option PlanContract
  pub frozen_prefix_slice_ids : List String

abbrev pub finding_when : Bool → CriticFinding → List CriticFinding
finding_when test f = if test then f ∷ [] else []

unfoldable pub frozen_slice_findings :
    Dumps → CheckDefinition → PlanContract → PlanContract → String → List CriticFinding
unfolding finding slice_of
frozen_slice_findings dumps d baseline p slice_id = elim (slice_of baseline.task_slices slice_id) [
  | none ↦ []
  | some old ↦ elim (slice_of p.task_slices slice_id) [
    | none ↦
        finding d "frozen_prefix_slice_missing"
          ("Frozen-prefix slice " <> slice_id <> " is missing from replanned contract.")
          (some slice_id)
        ∷ []
    | some current ↦
        finding_when (not (dumps.dump_compact_slice old == dumps.dump_compact_slice current)) (
          finding d "frozen_prefix_slice_changed"
            ("Frozen-prefix slice " <> slice_id <> " changed during milestone replan.")
            (some slice_id))
  ]
]

unfoldable pub frozen_prefix_findings :
    CheckContext → CheckDefinition → PlanContract → List CriticFinding
unfolding frozen_slice_findings
frozen_prefix_findings x d p = elim x.baseline_plan [
  | none ↦ []
  | some baseline ↦ flat_map (frozen_slice_findings x.dumps d baseline p) x.frozen_prefix_slice_ids
]

abbrev pub type_of : Option TaskSliceContract → List String
type_of none = []
type_of (some s) = s.task_type ∷ []

-- The task types of the slices of a milestone.
unfoldable pub slice_types : PlanContract → MilestoneContract → List String
unfolding slice_of
slice_types p m = flat_map (λ slice_id. type_of (slice_of p.task_slices slice_id)) m.slice_ids

abbrev pub needs_both : SignoffPolicy → Bool
needs_both scrutiny_and_usertest = true
needs_both scrutiny_only = false

-- The signoff that the policy of a milestone asks for and that its slices cannot give.
unfoldable pub is_unachievable : PlanContract → MilestoneContract → Bool
unfolding slice_types
is_unachievable p m =
    let types = slice_types p m in
    let has_scrutiny = contains types "engineering.qa.verify.scrutiny" in
    let has_usertest = contains types "engineering.qa.verify.usertest" in
    if needs_both m.signoff_policy then not (has_scrutiny && has_usertest) else not has_scrutiny

abbrev pub unachievable_message : SignoffPolicy → String
unachievable_message scrutiny_and_usertest =
    "Milestone requires scrutiny/usertest signoff but does not contain both validator slices."
unachievable_message scrutiny_only =
    "Milestone requires scrutiny signoff but contains no scrutiny validator."

unfoldable pub unachievable_findings :
    CheckDefinition → PlanContract → MilestoneContract → List CriticFinding
unfolding finding is_unachievable
unachievable_findings d p m = finding_when (is_unachievable p m) (
    finding d "milestone_validator_signoff_unachievable" (unachievable_message m.signoff_policy)
      (some m.milestone_id))

unfoldable pub validation_contract_findings :
    CheckDefinition → MilestoneContract → List CriticFinding
unfolding finding is_truthy
validation_contract_findings d m = finding_when (not (is_truthy m.validation_contract)) (
    finding d "milestone_validation_contract_missing" "Milestone must carry a validation contract."
      (some m.milestone_id))

unfoldable pub unknown_slice_findings :
    CheckDefinition → PlanContract → MilestoneContract → List CriticFinding
unfolding finding join
unknown_slice_findings d p m =
    let missing =
      filter (λ i. not (contains (map (λ s. s.slice_id) p.task_slices) i)) m.slice_ids in
    finding_when (not (is_empty missing)) (
      finding d "milestone_unknown_slice"
        ("Milestone references unknown slices: " <> join ", " missing) (some m.milestone_id))

unfoldable pub findings_of_milestone :
    CheckDefinition → PlanContract → MilestoneContract → List CriticFinding
unfolding validation_contract_findings unachievable_findings unknown_slice_findings
findings_of_milestone d p m =
    validation_contract_findings d m ++ unachievable_findings d p m ++ unknown_slice_findings d p m

unfoldable pub milestone_findings : CheckDefinition → PlanContract → List CriticFinding
unfolding finding findings_of_milestone
milestone_findings d p =
    if is_empty p.milestones
    then finding d "milestones_missing" "Plan must define milestone contracts." none ∷ []
    else flat_map (findings_of_milestone d p) p.milestones
