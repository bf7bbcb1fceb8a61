-- ===== src/Planner/Critic/Checks/Writes.antt =====
-- The checks of planner/critic.py on the paths that the slices write.
use pgloom_engineering.Base.{
  String, ◌&&◌, ◌||◌, some, List, [], ◌∷◌, ◌++◌, any, filter, flat_map, contains, ◌==◌,
}
use pgloom_engineering.Contracts.{PlanContract, TaskSliceContract}
use pgloom_engineering.Planner.Critic.{CriticFinding, finding}
use pgloom_engineering.Planner.Critic.Rubric.{CheckDefinition}
use pgloom_engineering.PathPolicy.{is_qa_write_path}
use pgloom_engineering.Planner.Critic.Checks.{CheckContext, finding_when}
use pgloom_engineering.Planner.Critic.Paths.{
  paths_overlap, is_source_path, is_test_or_benchmark_path, is_docs_or_memory_path,
}
use pgloom_engineering.Planner.Critic.Checks.Roles.{role_slices}

unfoldable pub forbidden_path_overlap_findings : CheckDefinition → PlanContract → List CriticFinding
unfolding finding paths_overlap
forbidden_path_overlap_findings d p =
    flat_map
      (λ s. finding_when (paths_overlap s.allowed_paths s.forbidden_paths) (
        finding d "slice_allowed_forbidden_overlap"
          "Slice allowed_paths overlap its own forbidden_paths." (some s.slice_id)))
      p.task_slices

abbrev pub qa_slice_types : List String
qa_slice_types =
    "engineering.qa.author" ∷ "engineering.qa.verify.scrutiny" ∷ "engineering.qa.verify.usertest"
    ∷ []

unfoldable pub qa_paths_disjoint_findings :
    CheckContext → CheckDefinition → PlanContract → List CriticFinding
unfolding finding paths_overlap is_qa_write_path
qa_paths_disjoint_findings x d p =
    let implementers = role_slices p "implementer" in
    flat_map
      (λ i. finding_when (any (λ path. is_qa_write_path path x.qa_write_paths) i.allowed_paths) (
        finding d "implementer_claims_qa_paths"
          "Implementer slices may not write registered QA/test roots." (some i.slice_id)))
      implementers
    ++ flat_map
        (λ q.
          flat_map
            (λ i. finding_when (paths_overlap q.allowed_paths i.allowed_paths) (
              finding d "qa_paths_overlap_implementer"
                "QA write paths overlap implementer source paths." (some q.slice_id)))
            implementers)
        (filter (λ s. contains qa_slice_types s.task_type) p.task_slices)

unfoldable pub slice_hygiene_findings : CheckDefinition → TaskSliceContract → List CriticFinding
unfolding finding is_source_path is_test_or_benchmark_path is_docs_or_memory_path
slice_hygiene_findings d s =
    finding_when
      ((s.task_type == "engineering.design")
        && any (λ path. is_source_path path || is_test_or_benchmark_path path) s.allowed_paths)
      (finding d "design_claims_execution_paths"
        "Design slices may name source/test/benchmark files in the objective or expected outputs, but allowed_paths must stay limited to design documentation paths."
        (some s.slice_id))
    ++ finding_when ((s.role == "implementer") && any is_docs_or_memory_path s.allowed_paths) (
        finding d "implementer_claims_docs_or_memory_paths"
          "Implementer slices must not write docs or repo-memory; documentation/status updates belong to design or final human-gated follow-up work."
          (some s.slice_id))

unfoldable pub role_write_path_hygiene_findings :
    CheckDefinition → PlanContract → List CriticFinding
unfolding slice_hygiene_findings
role_write_path_hygiene_findings d p = flat_map (slice_hygiene_findings d) p.task_slices
