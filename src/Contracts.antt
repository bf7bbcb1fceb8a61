-- ===== src/Contracts.antt =====
-- The plan contract of contracts.py: the models, and the validator that every load of a plan runs.
pub mod Dependencies
pub mod Errors
pub mod Validation
pub mod Milestones
use pgloom_engineering.Base.{
  String, ◌<>◌, Bool, true, false, not, Option, none, some, List, [], ◌∷◌, map, if◌then◌else◌,
  is_empty, filter, contains, join,
}
use pgloom_engineering.Base.Json.{Json, boolean, object, end, field}

pub data ImplementationTopology : Type 0 where
  single split_specialists parallel_candidates council_decides : ImplementationTopology

pub data SignoffPolicy : Type 0 where
  scrutiny_and_usertest scrutiny_only : SignoffPolicy

pub record DesignContract : Type 0 where
  pub public_api : String
  pub ownership_boundaries : String
  pub concurrency_protocol : String
  pub persistence_protocol : String
  pub hard_constraints : List String
  pub forbidden_alternatives : List String
  pub acceptance_tests : List String

pub record MilestoneContract : Type 0 where
  pub milestone_id : String
  pub name : String
  pub slice_ids : List String
  pub acceptance_assertions : List String
  pub validation_contract : Json
  pub depends_on : List String
  pub signoff_policy : SignoffPolicy

pub record TaskSliceContract : Type 0 where
  pub slice_id : String
  pub role : String
  pub task_type : String
  pub objective : String
  pub allowed_paths : List String
  pub forbidden_paths : List String
  pub depends_on : List String
  pub expected_outputs : List String
  pub verification_commands : List (List String)
  pub acceptance_assertion_ids : List String
  pub grading_criteria : List String
  pub validation_strategy : Json
  pub context_budget : Option String
  pub model_route_hint : Option String
  pub required_procedures : List String
  pub handoff_requirements : List String
  pub milestone_id : Option String

pub record PlanContract : Type 0 where
  pub contract_version : String
  pub feature_id : String
  pub project : String
  pub problem_statement : String
  pub assumptions : List String
  pub design_contract : DesignContract
  pub affected_surfaces : List String
  pub implementation_topology : ImplementationTopology
  pub task_slices : List TaskSliceContract
  pub acceptance_test_matrix : List String
  pub acceptance_assertions : List String
  pub milestones : List MilestoneContract
  pub risk_register : List String
  pub self_heal_policy : String
  pub finalization_policy : String
  pub council_reports : List Json
  pub supersedes_plan_id : Option String
  pub supersession_rationale : Option String

-- A `ValueError` with its message, or the value.
pub data Checked {ℓ} (A : Type ℓ) : Type ℓ where
  ok : A → Checked A
  value_error : String → Checked A

-- The dependencies of a slice that are not among the slices seen before it.
unfoldable pub missing_from : List String → List String → List String
missing_from seen deps = filter (λ dep. not (contains seen dep)) deps

-- The loop over the slices: the message of the first error, or none. `seen` is the set of ids so far.
unfoldable pub check_slices : List String → List TaskSliceContract → Option String
unfolding missing_from
check_slices seen [] = none
check_slices seen (s ∷ rest) =
    let later = check_slices (s.slice_id ∷ seen) rest in
    let missing = missing_from seen s.depends_on in
    if contains seen s.slice_id
    then some ("duplicate task slice id: " <> s.slice_id)
    else if is_empty missing
    then later
    else some (s.slice_id <> " depends on unknown or later slices: " <> join ", " missing)

-- `if not xs: xs = list(default)`
abbrev pub default_to : List String → List String → List String
default_to default [] = default
default_to default (x ∷ xs) = x ∷ xs

unfoldable pub fill_assertions : PlanContract → PlanContract
fill_assertions p = record p {
  acceptance_assertions = default_to p.acceptance_test_matrix p.acceptance_assertions;
}

abbrev pub claim : List String → TaskSliceContract → TaskSliceContract
claim assertions s = record s {
  acceptance_assertion_ids = default_to assertions s.acceptance_assertion_ids;
}

-- With no assertions the loop over the slices is skipped.
abbrev pub claim_all : List String → List TaskSliceContract → List TaskSliceContract
claim_all [] slices = slices
claim_all (a ∷ assertions) slices = map (claim (a ∷ assertions)) slices

unfoldable pub fill_claims : PlanContract → PlanContract
fill_claims p = record p { task_slices = claim_all p.acceptance_assertions p.task_slices }

abbrev pub slice_ids_of : List TaskSliceContract → List String
slice_ids_of slices = map (λ s. s.slice_id) slices

abbrev pub default_milestone : List TaskSliceContract → List String → MilestoneContract
default_milestone slices assertions = record {
  milestone_id = "m1";
  name = "Milestone 1";
  slice_ids = slice_ids_of slices;
  acceptance_assertions = assertions;
  validation_contract =
      object (field "scrutiny" (boolean true) (field "usertest" (boolean true) end));
  depends_on = [];
  signoff_policy = scrutiny_and_usertest;
}

abbrev pub default_milestones :
    List TaskSliceContract → List String → List MilestoneContract → List MilestoneContract
default_milestones [] assertions [] = []
default_milestones (s ∷ slices) assertions [] = default_milestone (s ∷ slices) assertions ∷ []
default_milestones slices assertions (m ∷ milestones) = m ∷ milestones

unfoldable pub fill_milestones : PlanContract → PlanContract
fill_milestones p = record p {
  milestones = default_milestones p.task_slices p.acceptance_assertions p.milestones;
}

unfoldable pub fill : PlanContract → PlanContract
unfolding fill_assertions fill_claims fill_milestones
fill p = fill_milestones (fill_claims (fill_assertions p))

unfoldable pub validate_dependencies : PlanContract → Checked PlanContract
validate_dependencies p = elim (check_slices [] p.task_slices) [
  | some message ↦ value_error message
  | none ↦ ok (fill p)
]
