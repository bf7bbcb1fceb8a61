-- ===== src/Contracts/Validation.antt =====
-- `validate_plan_contract` of contracts.py: the errors that a plan is refused for, check by check.
pub mod Coverage
pub mod Roles
pub mod Claims
use pgloom_engineering.Base.{
  String, ◌<>◌, ◌==◌, Bool, true, false, not, ◌&&◌, ◌||◌, Option, none, some, List, [], ◌∷◌, ◌++◌,
  map, if◌then◌else◌, is_empty, any, filter, contains, join, is_nonempty, or_empty,
}
use pgloom_engineering.Base.Json.{Json, Fields, object, get, is_truthy, is_text}
use pgloom_engineering.Base.Codes.{codes, lower, mentions_any}
use pgloom_engineering.PathPolicy.{is_qa_write_path}
use pgloom_engineering.Contracts.{
  DesignContract, MilestoneContract, TaskSliceContract, PlanContract, slice_ids_of, missing_from,
}
use pgloom_engineering.Contracts.Errors.{ContractError, error, error_when}
use pgloom_engineering.Contracts.Validation.Coverage.{validate_acceptance_assertion_coverage}

-- The task types of a role, or none for a role that is not known.
unfoldable pub allowed_task_types : String → Option (List String)
allowed_task_types role =
    if role == "designer"
    then some ("engineering.design" ∷ "engineering.designer" ∷ [])
    else if role == "implementer"
    then some ("engineering.implement" ∷ "engineering.implementation" ∷ [])
    else if role == "reviewer"
    then some ("engineering.review" ∷ [])
    else if role == "qa"
    then some (
        "engineering.qa.author" ∷ "engineering.qa.verify.scrutiny"
        ∷ "engineering.qa.verify.usertest" ∷ [])
    else if role == "historian"
    then some ("engineering.history" ∷ "engineering.historian" ∷ [])
    else none

abbrev pub is_allowed_in : String → Option (List String) → Bool
is_allowed_in task_type none = true
is_allowed_in task_type (some allowed) = contains allowed task_type

unfoldable pub validate_role_task_type : TaskSliceContract → List ContractError
unfolding allowed_task_types
validate_role_task_type s =
    error_when (not (is_allowed_in s.task_type (allowed_task_types s.role)))
      "invalid_role_task_type"
      (s.slice_id <> " role " <> s.role <> " cannot use task_type " <> s.task_type <> ".")

abbrev pub qa_task_types : List String
qa_task_types =
    "engineering.qa.author" ∷ "engineering.qa.verify.scrutiny" ∷ "engineering.qa.verify.usertest"
    ∷ []

unfoldable pub validate_role_path_policy : TaskSliceContract → List String → List ContractError
validate_role_path_policy s qa_write_paths =
    error_when
      (contains qa_task_types s.task_type
        && any (λ path. not (is_qa_write_path path qa_write_paths)) s.allowed_paths)
      "qa_paths_not_restricted"
      (s.slice_id <> " QA allowed_paths must be restricted to QA/test roots.")
    ++ error_when
        (s.role == "implementer"
          && any (λ path. is_qa_write_path path qa_write_paths) s.allowed_paths)
        "implementer_claims_qa_paths"
        (s.slice_id <> " implementer slices may not write QA test paths.")

-- The body of the loop over the milestones. `seen` already holds the milestone's own id when its
-- dependencies are looked up.
unfoldable pub milestone_errors : List String → List String → MilestoneContract → List ContractError
unfolding missing_from
milestone_errors slice_ids seen m =
    let missing = missing_from slice_ids m.slice_ids in
    let unknown_deps = missing_from (m.milestone_id ∷ seen) m.depends_on in
    error_when (contains seen m.milestone_id) "duplicate_milestone_id"
      ("duplicate milestone id: " <> m.milestone_id)
    ++ (error_when (not (is_empty missing)) "milestone_unknown_slice"
          (m.milestone_id <> " references unknown slices: " <> join ", " missing <> ".")
        ++ error_when (not (is_empty unknown_deps)) "milestone_unknown_dependency" (
            m.milestone_id
            <> " depends on unknown or later milestones: "
            <> join ", " unknown_deps
            <> "."))

unfoldable pub milestones_errors :
    List String → List String → List MilestoneContract → List ContractError
unfolding milestone_errors
milestones_errors slice_ids seen [] = []
milestones_errors slice_ids seen (m ∷ rest) =
    milestone_errors slice_ids seen m ++ milestones_errors slice_ids (m.milestone_id ∷ seen) rest

unfoldable pub validate_milestones : PlanContract → List ContractError
unfolding milestones_errors
validate_milestones p = milestones_errors (slice_ids_of p.task_slices) [] p.milestones

-- A protocol of the origin design that is set there and reads otherwise now.
abbrev pub drifted : Fields → String → String → Bool
drifted origin key current = elim (get key origin) [
  | none ↦ false
  | some v ↦ is_truthy v && not (is_text v current)
]

unfoldable pub changed_protocols : DesignContract → Fields → List String
changed_protocols d origin =
    map (λ (entry : String × String). entry.0)
      (filter (λ (entry : String × String). drifted origin entry.0 entry.1)
        (("public_api", d.public_api)
          ∷ ("ownership_boundaries", d.ownership_boundaries)
          ∷ ("concurrency_protocol", d.concurrency_protocol)
          ∷ ("persistence_protocol", d.persistence_protocol)
          ∷ []))

abbrev pub design_of : Option Fields → Option Fields
design_of none = none
design_of (some origin) = elim (get "design_contract" origin) [
  | none ↦ none
  | some v ↦ elim v [ object design ↦ some design | _ ↦ none ]
]

abbrev pub is_superseding : PlanContract → Bool
is_superseding p =
    is_nonempty (or_empty p.supersedes_plan_id) && is_nonempty (or_empty p.supersession_rationale)

unfoldable pub validate_design_contract_drift : PlanContract → Option Fields → List ContractError
unfolding changed_protocols
validate_design_contract_drift p origin_contract = elim (design_of origin_contract) [
  | none ↦ []
  | some origin ↦
      let changed = changed_protocols p.design_contract origin in
      error_when (not (is_empty changed) && not (is_superseding p)) "planner_contract_drift" (
        "Design contract changed without supersedes_plan_id and supersession_rationale: "
        <> join ", " changed)
]

abbrev pub lifecycle_terms : List String
lifecycle_terms =
    "restore" ∷ "snapshot" ∷ "lifecycle" ∷ "state machine" ∷ "corruption" ∷ "recovery" ∷ []

abbrev pub lifecycle_coverage : List (String × List String)
lifecycle_coverage =
    ("stale_or_invalid", "stale" ∷ "invalid" ∷ "open store" ∷ "closed" ∷ "precondition" ∷ [])
    ∷ ("invariant", "invariant" ∷ "corrupt" ∷ "corruption" ∷ "crc" ∷ "state" ∷ [])
    ∷ ("failure_path", "failure" ∷ "timeout" ∷ "exception" ∷ "partial" ∷ [])
    ∷ []

unfoldable pub validate_lifecycle_acceptance : PlanContract → List ContractError
unfolding lower mentions_any
validate_lifecycle_acceptance p =
    let text = lower (
      codes (
        join " " (
          p.problem_statement
          ∷ p.design_contract.public_api
          ∷ join " " p.design_contract.acceptance_tests
          ∷ join " " p.acceptance_test_matrix
          ∷ []))) in
    let tests =
      lower (codes (join " " (p.design_contract.acceptance_tests ++ p.acceptance_test_matrix))) in
    let missing =
      map (λ (entry : String × List String). entry.0)
        (filter (λ (entry : String × List String). not (mentions_any entry.1 tests))
          lifecycle_coverage) in
    error_when (mentions_any lifecycle_terms text && not (is_empty missing))
      "planner_contract_incomplete"
      ("Stateful lifecycle acceptance coverage missing: " <> join ", " missing)

abbrev pub slice_roles : List String
slice_roles = "designer" ∷ "implementer" ∷ "reviewer" ∷ "qa" ∷ "historian" ∷ []

unfoldable pub slice_errors : List String → TaskSliceContract → List ContractError
unfolding validate_role_task_type validate_role_path_policy
slice_errors qa_write_paths s =
    error_when (not (contains slice_roles s.role)) "invalid_task_role"
      (s.slice_id <> " has unsupported role " <> s.role <> ".")
    ++ (validate_role_task_type s
        ++ (validate_role_path_policy s qa_write_paths
            ++ (error_when (is_empty s.allowed_paths) "missing_allowed_paths"
                  (s.slice_id <> " must name allowed paths.")
                ++ (error_when (is_empty s.forbidden_paths) "missing_forbidden_paths"
                      (s.slice_id <> " must name forbidden paths.")
                    ++ (error_when (is_empty s.verification_commands)
                          "missing_verification_commands"
                          (s.slice_id <> " must define verification commands.")
                        ++ error_when (is_empty s.expected_outputs) "missing_expected_outputs"
                            (s.slice_id <> " must define outputs."))))))

unfoldable pub slices_errors : List String → List TaskSliceContract → List ContractError
unfolding slice_errors
slices_errors qa_write_paths [] = []
slices_errors qa_write_paths (s ∷ rest) =
    slice_errors qa_write_paths s ++ slices_errors qa_write_paths rest

-- The checks on the plan's own fields.
unfoldable pub plan_errors : PlanContract → List ContractError
plan_errors p =
    error_when (is_empty p.acceptance_test_matrix) "missing_acceptance_matrix"
      "Plan must define acceptance tests."
    ++ (error_when (is_empty p.affected_surfaces) "missing_affected_surfaces"
          "Plan must define affected surfaces."
        ++ (error_when (is_empty p.task_slices) "missing_task_slices"
              "Plan must emit at least one task slice."
            ++ (error_when (is_empty p.acceptance_assertions) "missing_acceptance_assertions"
                  "Plan must define acceptance assertions for bidirectional coverage."
                ++ (error_when (is_empty p.milestones) "missing_milestones"
                      "Plan must define milestone contracts."
                    ++ (error_when
                          (not (p.finalization_policy == "open_final_feature_pr_for_human_merge"))
                          "invalid_finalization_policy" "Final PR merge must remain human-gated."
                        ++ error_when
                            (not (is_empty p.design_contract.acceptance_tests)
                              && is_empty p.acceptance_test_matrix)
                            "missing_acceptance_matrix"
                            "Design acceptance tests need a matrix.")))))

unfoldable pub validate_plan_contract :
    PlanContract → Option Fields → List String → List ContractError
unfolding plan_errors validate_design_contract_drift validate_lifecycle_acceptance
    validate_milestones validate_acceptance_assertion_coverage slices_errors
validate_plan_contract p origin_contract qa_write_paths =
    plan_errors p
    ++ (validate_design_contract_drift p origin_contract
        ++ (validate_lifecycle_acceptance p
            ++ (validate_milestones p
                ++ (validate_acceptance_assertion_coverage p
                    ++ slices_errors qa_write_paths p.task_slices))))
