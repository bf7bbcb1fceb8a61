-- ===== src/Planner/Critic/Checks/Dispatch.antt =====
-- `_run_deterministic_check` of planner/critic.py: the check that an id of the rubric stands for.
use pgloom_engineering.Base.{
  String, Bool, true, false, not, ◌&&◌, ◌||◌, none, some, List, [], ◌∷◌, if◌then◌else◌, is_empty,
  any, is_nonempty, flat_map, contains, ltb, ◌==◌,
}
use pgloom_engineering.Base.Codes.{lower}
use pgloom_engineering.Contracts.{PlanContract, ImplementationTopology, single}
use pgloom_engineering.Planner.Critic.{CriticFinding, finding}
use pgloom_engineering.Planner.Critic.Rubric.{CheckDefinition}
use pgloom_engineering.Planner.Critic.PlanTexts.{
  plan_text, is_lifecycle_text, misses_roadmap_dependency,
}
use pgloom_engineering.Planner.Critic.Checks.{CheckContext, finding_when}
use pgloom_engineering.Planner.Critic.Checks.{frozen_prefix_findings, milestone_findings}
use pgloom_engineering.Planner.Critic.Checks.Content.{
  acceptance_assertion_findings, compactness_findings, hot_path_findings, inventory_only_findings,
  role_count,
}
use pgloom_engineering.Planner.Critic.Checks.Roles.{qa_author_findings, qa_verify_findings}
use pgloom_engineering.Planner.Critic.Checks.Writes.{
  forbidden_path_overlap_findings, qa_paths_disjoint_findings, role_write_path_hygiene_findings,
}

unfoldable pub design_contract_findings :
    CheckContext → CheckDefinition → PlanContract → List CriticFinding
unfolding finding plan_text is_lifecycle_text
design_contract_findings x d p =
    finding_when
      (is_lifecycle_text (plan_text x.dumps p)
        && (not (is_nonempty p.design_contract.persistence_protocol)
            || not (is_nonempty p.design_contract.concurrency_protocol)))
      (finding d "design_protocol_missing" "Lifecycle plan lacks protocols." none)

unfoldable pub verification_command_findings : CheckDefinition → PlanContract → List CriticFinding
unfolding finding
verification_command_findings d p =
    flat_map
      (λ s.
        finding_when
          (contains ("implementer" ∷ "qa" ∷ []) s.role && is_empty s.verification_commands)
          (finding d "verification_missing" "Missing verification." (some s.slice_id)))
      p.task_slices

abbrev is_single : ImplementationTopology → Bool
is_single single = true
is_single _ = false

unfoldable pub topology_findings : CheckDefinition → PlanContract → List CriticFinding
unfolding finding
topology_findings d p =
    finding_when (is_single p.implementation_topology && ltb 1 (role_count "implementer" p))
      (finding d "single_topology_conflict" "SINGLE topology has multiple implementers." none)

unfoldable pub reviewer_findings : CheckDefinition → PlanContract → List CriticFinding
unfolding finding
reviewer_findings d p =
    finding_when (not (any (λ s. s.role == "reviewer") p.task_slices))
      (finding d "reviewer_slice_missing" "Missing reviewer slice." none)

unfoldable pub finalization_findings : CheckDefinition → PlanContract → List CriticFinding
unfolding finding
finalization_findings d p =
    finding_when (not (p.finalization_policy == "open_final_feature_pr_for_human_merge"))
      (finding d "finalization_not_human_gated" "Finalization must be human-gated." none)

unfoldable pub risk_register_findings :
    CheckContext → CheckDefinition → PlanContract → List CriticFinding
unfolding finding plan_text is_lifecycle_text
risk_register_findings x d p =
    finding_when (is_lifecycle_text (plan_text x.dumps p) && is_empty p.risk_register)
      (finding d "risk_register_empty" "Lifecycle plan has empty risk register." none)

unfoldable pub roadmap_dependency_findings :
    CheckContext → CheckDefinition → PlanContract → List CriticFinding
unfolding finding plan_text lower misses_roadmap_dependency
roadmap_dependency_findings x d p =
    finding_when (misses_roadmap_dependency (lower (plan_text x.dumps p))) (
      finding d "roadmap_dependency_missing"
        "Dependency-gated roadmap item does not explicitly handle R-002/snapshot prerequisite."
        none)

-- The checks by their ids, in the order in which the code tests for them. An id of the rubric that is
-- not here finds nothing.
abbrev runners : CheckContext → CheckDefinition → PlanContract → List (String × List CriticFinding)
runners x d p =
    ("check_frozen_prefix_unchanged", frozen_prefix_findings x d p)
    ∷ ("check_design_contract_completeness", design_contract_findings x d p)
    ∷ ("check_verification_commands", verification_command_findings d p)
    ∷ ("check_forbidden_path_overlap", forbidden_path_overlap_findings d p)
    ∷ (
      "check_lifecycle_coverage",
      finding_when (contains x.error_codes "planner_contract_incomplete")
          (finding d "lifecycle_coverage_missing" "Missing lifecycle coverage." none),
    )
    ∷ ("check_topology_consistency", topology_findings d p)
    ∷ ("check_reviewer_present", reviewer_findings d p)
    ∷ ("check_qa_author_present", qa_author_findings x d p)
    ∷ ("check_qa_verify_present", qa_verify_findings x d p)
    ∷ ("check_qa_paths_disjoint", qa_paths_disjoint_findings x d p)
    ∷ ("check_role_write_path_hygiene", role_write_path_hygiene_findings d p)
    ∷ ("check_acceptance_assertion_coverage", acceptance_assertion_findings d p)
    ∷ ("check_milestones_present", milestone_findings d p)
    ∷ ("check_finalization_policy", finalization_findings d p)
    ∷ ("check_risk_register_present", risk_register_findings x d p)
    ∷ ("check_roadmap_dependency_handling", roadmap_dependency_findings x d p)
    ∷ ("check_hot_path_invariants", hot_path_findings x.dumps d p)
    ∷ ("check_behavioral_coverage_not_inventory_only", inventory_only_findings x.dumps d p)
    ∷ ("check_small_feature_compactness", compactness_findings x.dumps d p)
    ∷ []

abbrev look_up : String → List (String × List CriticFinding) → List CriticFinding
look_up id [] = []
look_up id ((key, found) ∷ rest) = let later = look_up id rest in if id == key then found else later

unfoldable pub run_deterministic_check :
    CheckContext → PlanContract → CheckDefinition → List CriticFinding
unfolding finding frozen_prefix_findings design_contract_findings verification_command_findings
    forbidden_path_overlap_findings topology_findings reviewer_findings qa_author_findings
    qa_verify_findings qa_paths_disjoint_findings role_write_path_hygiene_findings
    acceptance_assertion_findings milestone_findings finalization_findings risk_register_findings
    roadmap_dependency_findings hot_path_findings inventory_only_findings compactness_findings
run_deterministic_check x p d = look_up d.check_id (runners x d p)
