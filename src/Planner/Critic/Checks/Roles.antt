-- ===== src/Planner/Critic/Checks/Roles.antt =====
-- The checks of planner/critic.py on the QA slices and on the paths that slices write.
use pgloom_engineering.Base.{
  String, Bool, not, ◌||◌, none, some, List, [], ◌∷◌, ◌++◌, map, if◌then◌else◌, is_empty, any,
  filter, flat_map, contains, ◌==◌,
}
use pgloom_engineering.Contracts.{PlanContract, TaskSliceContract}
use pgloom_engineering.Planner.Critic.{CriticFinding, finding}
use pgloom_engineering.Planner.Critic.Rubric.{CheckDefinition}
use pgloom_engineering.PathPolicy.{is_qa_write_path}
use pgloom_engineering.Planner.Critic.Checks.{CheckContext, finding_when}
use pgloom_engineering.Planner.Critic.Dependencies.{depends_on_transitively}
use pgloom_engineering.Planner.Critic.PlanTexts.{qa_author_needs_benchmark_root}
use pgloom_engineering.Planner.Critic.Commands.{
  command_text, is_feature_benchmark_smoke_command, is_periodic_regression,
  is_bare_gradle_project_gate, is_feature_lint_command, is_feature_build_command,
  is_feature_test_command, is_broad_usertest_gate,
}

abbrev pub task_type_slices : PlanContract → String → List TaskSliceContract
task_type_slices p task_type = filter (λ s. s.task_type == task_type) p.task_slices

abbrev pub role_slices : PlanContract → String → List TaskSliceContract
role_slices p role = filter (λ s. s.role == role) p.task_slices

-- The ids of the slices as a set.
abbrev pub id_set : List TaskSliceContract → List String
id_set [] = []
id_set (s ∷ rest) =
    let ids = id_set rest in if contains ids s.slice_id then ids else s.slice_id ∷ ids

abbrev writes_outside_qa : CheckContext → TaskSliceContract → Bool
writes_outside_qa x s = any (λ path. not (is_qa_write_path path x.qa_write_paths)) s.allowed_paths

unfoldable pub author_findings :
    CheckContext → CheckDefinition → TaskSliceContract → List CriticFinding
unfolding finding is_qa_write_path qa_author_needs_benchmark_root
author_findings x d author =
    finding_when (writes_outside_qa x author) (
      finding d "qa_author_paths_not_restricted"
        "QA author allowed_paths must be restricted to registered QA/test roots."
        (some author.slice_id))
    ++ finding_when (qa_author_needs_benchmark_root x.dumps author) (
        finding d "qa_benchmark_output_path_not_allowed"
          "QA author expected benchmark/JMH artifacts but allowed_paths omit a benchmark QA root."
          (some author.slice_id))

-- The implementer depends on none of the authors.
abbrev pub is_before_authors : PlanContract → TaskSliceContract → Bool
is_before_authors p implementer = not (
    any (λ author. depends_on_transitively p.task_slices implementer.slice_id author)
      (id_set (task_type_slices p "engineering.qa.author")))

unfoldable pub late_findings :
    CheckDefinition → PlanContract → TaskSliceContract → List CriticFinding
unfolding finding depends_on_transitively
late_findings d p i = finding_when (is_before_authors p i) (
    finding d "qa_author_not_before_implementer"
      "Every implementer slice must depend on a QA author slice." (some i.slice_id))

unfoldable pub qa_author_findings :
    CheckContext → CheckDefinition → PlanContract → List CriticFinding
unfolding finding author_findings late_findings
qa_author_findings x d p =
    let authors = task_type_slices p "engineering.qa.author" in
    if is_empty authors
    then finding d "qa_author_missing" "Missing engineering.qa.author slice." none ∷ []
    else flat_map (author_findings x d) authors
      ++ flat_map (late_findings d p) (role_slices p "implementer")

-- `for other in others: if not _depends_on_transitively(plan, slice, other)`
abbrev pub order_findings :
    PlanContract → CriticFinding → TaskSliceContract → List String → List CriticFinding
order_findings p f s others =
    flat_map
      (λ other. finding_when (not (depends_on_transitively p.task_slices s.slice_id other)) f)
      others

unfoldable pub scrutiny_command_findings : CheckDefinition → TaskSliceContract → List CriticFinding
unfolding finding command_text is_feature_benchmark_smoke_command is_periodic_regression
    is_bare_gradle_project_gate is_feature_lint_command is_feature_build_command
    is_feature_test_command
scrutiny_command_findings d s =
    let commands = map command_text s.verification_commands in
    finding_when (any is_periodic_regression commands) (
      finding d "qa_verify_uses_periodic_regression_gate"
        "Feature QA scrutiny must not run full regression/JMH sweeps; reserve qa/regression.sh for project-scheduled periodic validation."
        (some s.slice_id))
    ++ finding_when (any is_bare_gradle_project_gate commands) (
        finding d "qa_verify_uses_broad_project_check"
          "Feature QA scrutiny must not run broad project smoke or bare ./gradlew test/check; use scoped compile/lint/build commands plus feature-specific tests and direct benchmark smoke."
          (some s.slice_id))
    ++ finding_when
        (not (any is_feature_benchmark_smoke_command commands)
          || (not (any is_feature_lint_command commands)
              || (not (any is_feature_build_command commands)
                  || not (any is_feature_test_command commands))))
        (finding d "qa_verify_missing_feature_validation"
          "QA scrutiny must include direct benchmark-smoke plus feature-specific lint/build/test commands; do not rely on broad project smoke scripts as the benchmark gate."
          (some s.slice_id))

unfoldable pub early_scrutiny_findings :
    CheckDefinition → PlanContract → TaskSliceContract → List CriticFinding
unfolding finding depends_on_transitively
early_scrutiny_findings d p s =
    order_findings p
      (finding d "qa_verify_not_after_reviewer" "QA scrutiny must depend on every reviewer slice."
        (some s.slice_id))
      s (id_set (role_slices p "reviewer"))

unfoldable pub scrutiny_findings :
    CheckDefinition → PlanContract → TaskSliceContract → List CriticFinding
unfolding scrutiny_command_findings early_scrutiny_findings
scrutiny_findings d p s = scrutiny_command_findings d s ++ early_scrutiny_findings d p s

unfoldable pub usertest_command_findings : CheckDefinition → TaskSliceContract → List CriticFinding
unfolding finding command_text is_broad_usertest_gate
usertest_command_findings d s =
    finding_when (any is_broad_usertest_gate (map command_text s.verification_commands)) (
      finding d "qa_usertest_uses_broad_gate"
        "QA user-test must exercise the feature through a user-facing CLI/API/browser/app flow, not substitute qa/smoke.sh, benchmark-smoke gates, deterministic test/check commands, full regression, or bare project checks."
        (some s.slice_id))

unfoldable pub early_usertest_findings :
    CheckDefinition → PlanContract → TaskSliceContract → List CriticFinding
unfolding finding depends_on_transitively
early_usertest_findings d p s =
    order_findings p
      (finding d "qa_usertest_not_after_scrutiny" "QA user-test must depend on QA scrutiny."
        (some s.slice_id))
      s (map (λ t. t.slice_id) (task_type_slices p "engineering.qa.verify.scrutiny"))

unfoldable pub usertest_findings :
    CheckDefinition → PlanContract → TaskSliceContract → List CriticFinding
unfolding usertest_command_findings early_usertest_findings
usertest_findings d p s = usertest_command_findings d s ++ early_usertest_findings d p s

unfoldable pub validator_findings :
    CheckContext → CheckDefinition → TaskSliceContract → List CriticFinding
unfolding finding is_qa_write_path
validator_findings x d s = finding_when (writes_outside_qa x s) (
    finding d "qa_verify_paths_not_restricted"
      "QA validator allowed_paths must be restricted to registered QA/test roots."
      (some s.slice_id))

-- The findings of a plan with the given scrutinies, of which there is one at least, and user tests.
unfoldable pub validators_findings :
    CheckContext
    → CheckDefinition
    → PlanContract
    → List TaskSliceContract
    → List TaskSliceContract
    → List CriticFinding
unfolding finding validator_findings scrutiny_findings usertest_findings
validators_findings x d p scrutinies usertests =
    flat_map (validator_findings x d) (scrutinies ++ usertests)
    ++ flat_map (scrutiny_findings d p) scrutinies
    ++ finding_when (is_empty usertests) (
        finding d "qa_usertest_missing"
          "Missing engineering.qa.verify.usertest slice after scrutiny." none)
    ++ flat_map (usertest_findings d p) usertests

unfoldable pub qa_verify_findings :
    CheckContext → CheckDefinition → PlanContract → List CriticFinding
unfolding finding validators_findings
qa_verify_findings x d p =
    let scrutinies = task_type_slices p "engineering.qa.verify.scrutiny" in
    let usertests = task_type_slices p "engineering.qa.verify.usertest" in
    if is_empty scrutinies
    then finding d "qa_scrutiny_missing" "Missing engineering.qa.verify.scrutiny slice." none ∷ []
    else validators_findings x d p scrutinies usertests
