-- ===== src/Planner/Critic/Checks/Content.antt =====
-- The checks of planner/critic.py on the assertions, the size and the texts of a plan.
use pgloom_engineering.Base.{
  ℕ, String, ◌<>◌, Bool, true, false, not, ◌&&◌, ◌||◌, none, some, List, [], ◌∷◌, ◌++◌, map,
  if◌then◌else◌, is_empty, filter, flat_map, length, ltb, nat_eq, ◌==◌,
}
use pgloom_engineering.Base.Codes.{lower, mentions_any}
use pgloom_engineering.Contracts.{PlanContract}
use pgloom_engineering.Contracts.Validation.Coverage.{Labels, assertion_labels, claims_of, has_id}
use pgloom_engineering.Planner.Critic.{CriticFinding, finding}
use pgloom_engineering.Planner.Critic.Rubric.{CheckDefinition}
use pgloom_engineering.Planner.Critic.PlanTexts.{
  Dumps, plan_text, hot_path_shared_api_requires_wrapper_coverage, is_inventory_only,
  is_small_feature, requires_history_update,
}
use pgloom_engineering.Planner.Critic.Checks.{finding_when}

-- `s <= t` of two texts
unfoldable le_codes : List ℕ → List ℕ → Bool
le_codes [] t = true
le_codes (c ∷ s) [] = false
le_codes (c ∷ s) (d ∷ t) = ltb c d || (nat_eq c d && le_codes s t)

unfoldable insert_label : List ℕ × String → Labels → Labels
unfolding le_codes
insert_label entry [] = entry ∷ []
insert_label entry (e ∷ labels) =
    let later = insert_label entry labels in
    if le_codes entry.0 e.0 then entry ∷ e ∷ labels else e ∷ later

unfoldable sort_labels : Labels → Labels
unfolding insert_label
sort_labels [] = []
sort_labels (e ∷ labels) = insert_label e (sort_labels labels)

unfoldable pub acceptance_assertion_findings : CheckDefinition → PlanContract → List CriticFinding
unfolding finding assertion_labels claims_of has_id sort_labels
acceptance_assertion_findings d p =
    let labels = assertion_labels p in
    let claimed = claims_of p.task_slices [] in
    let unclaimed = sort_labels (filter (λ e. not (has_id claimed e.0)) labels) in
    if is_empty labels
    then finding d "acceptance_assertions_missing" "Plan must define acceptance assertions." none
      ∷ []
    else flat_map
        (λ s. finding_when (is_empty s.acceptance_assertion_ids) (
          finding d "slice_missing_acceptance_assertion"
            "Task slice must claim at least one acceptance assertion." (some s.slice_id)))
        p.task_slices
      ++ map
          (λ e.
            finding d "acceptance_assertion_unclaimed"
              ("Acceptance assertion is not claimed by any slice: " <> e.1) none)
          unclaimed

-- `len([item for item in plan.task_slices if item.role == role])`
abbrev pub role_count : String → PlanContract → ℕ
role_count role p = length (filter (λ s. s.role == role) p.task_slices)

unfoldable pub compactness_findings : Dumps → CheckDefinition → PlanContract → List CriticFinding
unfolding finding is_small_feature requires_history_update
compactness_findings dumps d p =
    if is_small_feature p
    then finding_when (ltb 7 (length p.task_slices)) (
        finding d "small_feature_too_many_slices"
          "Small roadmap item should usually fit in 5-7 slices." none)
      ++ finding_when (ltb 1 (role_count "reviewer" p)) (
          finding d "small_feature_too_many_reviewers"
            "Small roadmap item should use one reviewer slice." none)
      ++ finding_when (ltb 3 (role_count "qa" p)) (
          finding d "small_feature_too_many_qa_slices"
            "Small roadmap item should combine QA gates unless there is a clear risk split." none)
      ++ finding_when (ltb 0 (role_count "historian" p) && not (requires_history_update dumps p)) (
          finding d "small_feature_unnecessary_historian"
            "Small roadmap item should fold final notes into QA/review unless docs must change."
            none)
    else []

unfoldable pub hot_path_findings : Dumps → CheckDefinition → PlanContract → List CriticFinding
unfolding finding plan_text lower mentions_any hot_path_shared_api_requires_wrapper_coverage
hot_path_findings dumps d p =
    let text = lower (plan_text dumps p) in
    if mentions_any ("proxy.newproxyinstance" ∷ "invocationhandler" ∷ []) text
    then finding d "benchmark_allocating_indirection"
        "Benchmark plan uses reflection proxy/InvocationHandler in a hot measured path." none
      ∷ []
    else if hot_path_shared_api_requires_wrapper_coverage dumps p
    then finding d "hot_path_wrapper_coverage_missing"
        "Hot-path shared API plan must cover wrappers, decorators, adapters, or delegating implementations that implement the same contract."
        none
      ∷ []
    else finding_when
        (mentions_any ("compression" ∷ "lz4" ∷ []) text
          && mentions_any
              ("compress on publish" ∷ "compression on publish" ∷ "publish compression"
                ∷ "hot publish compression" ∷ "allocate on publish" ∷ "allocating on publish" ∷ [])
              text)
        (finding d "hot_path_constraint_violation"
          "Compression plan appears to put compression/allocation on the publish hot path." none)

unfoldable pub inventory_only_findings : Dumps → CheckDefinition → PlanContract → List CriticFinding
unfolding finding is_inventory_only
inventory_only_findings dumps d p =
    flat_map
      (λ s. finding_when (is_inventory_only dumps s) (
        finding d "inventory_only_behavior_coverage"
          "Behavior acceptance relies on inventory/presence checks without matching and non-matching cases."
          (some s.slice_id)))
      p.task_slices
