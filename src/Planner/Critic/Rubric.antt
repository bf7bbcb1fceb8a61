-- ===== src/Planner/Critic/Rubric.antt =====
-- The rubric of planner/critic.py.
use pgloom_engineering.Base.{String, Bool, true, false, Option, List, [], ◌∷◌, find, ◌==◌}

pub data Severity : Type 0 where
  blocking advisory : Severity

-- `severity == "blocking"`
abbrev pub is_blocking : Severity → Bool
is_blocking blocking = true
is_blocking advisory = false

pub record CheckDefinition : Type 0 where
  pub check_id : String
  pub name : String
  pub severity_if_failed : Severity
  pub rubric : String

abbrev check : String → String → Severity → String → CheckDefinition
check i n s r = record { check_id = i; name = n; severity_if_failed = s; rubric = r }

unfoldable pub rubric_checks : List CheckDefinition
rubric_checks =
    check "check_design_contract_completeness" "Design contract completeness" blocking
      "Lifecycle work must define persistence and concurrency protocols."
    ∷ check "check_slice_path_coverage" "Slice path coverage" blocking
        "Every affected surface must be covered by slice allowed paths and tests."
    ∷ check "check_forbidden_path_overlap" "Forbidden-path overlap" blocking
        "No slice may include overlapping entries in its own allowed_paths and forbidden_paths."
    ∷ check "check_verification_commands" "Verification command coverage" blocking
        "Implementer and QA slices must define qa or Gradle verification commands."
    ∷ check "check_lifecycle_coverage" "Acceptance matrix lifecycle coverage" blocking
        "Lifecycle work must cover stale/invalid, invariant, and failure/partial cases."
    ∷ check "check_topology_consistency" "Implementation topology consistency" blocking
        "SINGLE topology is incompatible with multiple implementer slices."
    ∷ check "check_reviewer_present" "Reviewer slice presence" blocking
        "Plans must include at least one reviewer slice."
    ∷ check "check_qa_author_present" "QA author slice presence" blocking
        "Plans must include a test-first engineering.qa.author slice before implementers."
    ∷ check "check_qa_verify_present" "QA scrutiny + user-test slice presence" blocking
        "Plans must include engineering.qa.verify.scrutiny after reviewers and engineering.qa.verify.usertest after scrutiny unless metadata authorizes a skip."
    ∷ check "check_qa_paths_disjoint" "QA paths disjoint from source" blocking
        "QA author/verify slices must write only tests or fixtures and stay disjoint from implementers."
    ∷ check "check_role_write_path_hygiene" "Role write path hygiene" blocking
        "Design slices must not claim production source, tests, or benchmark write paths; implementer slices must not claim docs or repo-memory write paths."
    ∷ check "check_acceptance_assertion_coverage" "Acceptance assertion coverage" blocking
        "Every assertion is claimed by a slice and every slice claims an assertion."
    ∷ check "check_milestones_present" "Milestone contracts present" blocking
        "Plans must include milestone contracts with validation contracts."
    ∷ check "check_orphan_slices" "Orphan slice detection" advisory
        "Non-terminal slices should feed a later reviewer, QA, or historian slice."
    ∷ check "check_finalization_policy" "Finalization policy locked to human merge" blocking
        "Final feature PR merge must remain human-gated."
    ∷ check "check_objective_specificity" "Objective specificity" advisory
        "Slice objectives should name concrete artifacts, files, tests, or metrics."
    ∷ check "check_risk_register_present" "Risk register present" advisory
        "Lifecycle work should carry an explicit risk register."
    ∷ check "check_roadmap_dependency_handling" "Roadmap dependency handling" blocking
        "Plans for dependency-gated roadmap items must block, narrow, or explicitly sequence prerequisites."
    ∷ check "check_hot_path_invariants" "Hot-path invariant preservation" blocking
        "Plans must not schedule work that violates stated zero-allocation or hot-path constraints."
    ∷ check "check_behavioral_coverage_not_inventory_only" "Behavioral coverage not inventory-only"
        blocking
        "Endpoint, route, prefix, filter, query, and benchmark acceptance must be proven by behavior cases, not only method, route, or build-file inventory."
    ∷ check "check_small_feature_compactness" "Small-feature compactness" blocking
        "Small or single-surface roadmap items should use a compact handoff with limited slices."
    ∷ check "check_frozen_prefix_unchanged" "Frozen prefix unchanged" blocking
        "Operator replan-from-milestone must preserve frozen-prefix slices exactly."
    ∷ []

-- `_definition(check_id)`
unfoldable pub definition_of : String → Option CheckDefinition
definition_of check_id = find (λ d. d.check_id == check_id) rubric_checks
