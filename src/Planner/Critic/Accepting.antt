-- ===== src/Planner/Critic/Accepting.antt =====
-- When the review of planner/critic.py accepts a plan.
use pgloom_engineering.Base.{
  ◌≡◌, refl, ap, ◌∙◌, Bool, not, ◌&&◌, ◌||◌, Option, none, some, List, [], ◌∷◌, map, arith,
  is_empty, any, all, Has, if-either, if-split, map-map, any-map_of_Has,
}
use pgloom_engineering.Base.Json.{Json, get}
use pgloom_engineering.Contracts.{Checked}
use pgloom_engineering.Planner.Critic.{
  CriticFinding, CriticCheckResult, is_accept, is_failed_blocking, compute_verdict, result_of,
  or_unevaluated, results_of_items, items_of, normalize_check_results,
}
use pgloom_engineering.Planner.Critic.Rubric.{is_blocking, CheckDefinition, rubric_checks}
use pgloom_engineering.Planner.Critic.Review.{
  reconcile_result, reconcile_with, enforce_with, reconcile_model_results_with_deterministic_checks,
  enforce_failure, enforce_deterministic_failures, deterministic_result,
  deterministic_check_results, reviewed_results, review, Printing, payload_of,
  only_unsupported_model_findings,
}
use pgloom_engineering.Planner.Critic.Answers.{
  rubric-distinct, result_of-map, or_unevaluated-check_id, or_unevaluated-severity,
}

-- The model's result of a check.
abbrev pub model_result : Checked Json → CheckDefinition → CriticCheckResult
model_result answer d =
    or_unevaluated (results_of_items (items_of (get "per_check_results" (payload_of answer)))) d

-- The check finds nothing, and the model passed it or has no finding of its own.
unfoldable pub is_clear :
    (CheckDefinition → List CriticFinding) → Checked Json → CheckDefinition → Bool
unfolding or_unevaluated results_of_items only_unsupported_model_findings
is_clear run answer d =
    let m = model_result answer d in
    is_empty (run d) && (m.passed || only_unsupported_model_findings m.findings)

reconcile_with-check_id :
    (r : CriticCheckResult) (o : Option CriticCheckResult)
    → (reconcile_with r o).check_id ≡ r.check_id
reconcile_with-check_id r none = refl
reconcile_with-check_id r (some d) =
    if-either (λ (x : CriticCheckResult). x.check_id ≡ r.check_id)
      (not r.passed && (d.passed && only_unsupported_model_findings r.findings)) refl refl

reconcile_with-severity :
    (r : CriticCheckResult) (o : Option CriticCheckResult)
    → (reconcile_with r o).severity_if_failed ≡ r.severity_if_failed
reconcile_with-severity r none = refl
reconcile_with-severity r (some d) =
    if-either (λ (x : CriticCheckResult). x.severity_if_failed ≡ r.severity_if_failed)
      (not r.passed && (d.passed && only_unsupported_model_findings r.findings)) refl refl

reconcile_with-passed :
    (r d : CriticCheckResult)
    → (reconcile_with r (some d)).passed
      ≡ (r.passed || (d.passed && only_unsupported_model_findings r.findings))
reconcile_with-passed r d =
    if-split
      (λ (x : CriticCheckResult).
        x.passed ≡ (r.passed || (d.passed && only_unsupported_model_findings r.findings)))
      (not r.passed && (d.passed && only_unsupported_model_findings r.findings)) (λ h. ground arith)
      (λ h. ground arith)

enforce_with-severity :
    (d m : CriticCheckResult) → (enforce_with d (some m)).severity_if_failed ≡ m.severity_if_failed
enforce_with-severity d m =
    if-either (λ (x : CriticCheckResult). x.severity_if_failed ≡ m.severity_if_failed) d.passed refl
      refl

enforce_with-passed :
    (d m : CriticCheckResult) → (enforce_with d (some m)).passed ≡ (d.passed && m.passed)
enforce_with-passed d m =
    if-split (λ (x : CriticCheckResult). x.passed ≡ (d.passed && m.passed)) d.passed
      (λ h. ground arith) (λ h. ground arith)

module _ (run : CheckDefinition → List CriticFinding) (answer : Checked Json) where
  abbrev deterministic : List CriticCheckResult
  deterministic = deterministic_check_results run

  abbrev reconciled : CheckDefinition → CriticCheckResult
  reconciled d = reconcile_result deterministic (model_result answer d)

  abbrev pub reviewed : CheckDefinition → CriticCheckResult
  reviewed d = enforce_failure (map reconciled rubric_checks) (deterministic_result run d)

  pub reviewed_results-map : reviewed_results run answer ≡ map reviewed rubric_checks
  unfolding reviewed_results normalize_check_results deterministic_check_results
      reconcile_model_results_with_deterministic_checks enforce_deterministic_failures
  reviewed_results-map =
      rw (map-map (reconcile_result deterministic) (model_result answer) rubric_checks) (
        map-map (enforce_failure (map reconciled rubric_checks)) (deterministic_result run)
          rubric_checks)

  reconciled-check_id : (d : CheckDefinition) → (reconciled d).check_id ≡ d.check_id
  unfolding reconcile_result
  reconciled-check_id d =
      reconcile_with-check_id (model_result answer d)
        (result_of (model_result answer d).check_id deterministic)
      ∙ or_unevaluated-check_id
          (results_of_items (items_of (get "per_check_results" (payload_of answer)))) d

  find_deterministic :
      (d : CheckDefinition)
      → Has d rubric_checks
      → result_of (model_result answer d).check_id deterministic ≡ some (deterministic_result run d)
  unfolding deterministic_check_results deterministic_result
  find_deterministic d m =
      rw
        (or_unevaluated-check_id
          (results_of_items (items_of (get "per_check_results" (payload_of answer)))) d)
        (result_of-map (deterministic_result run) (λ e. refl) rubric_checks d rubric-distinct m)

  reconciled_eq :
      (d : CheckDefinition)
      → Has d rubric_checks
      → reconciled d ≡ reconcile_with (model_result answer d) (some (deterministic_result run d))
  unfolding reconcile_result
  reconciled_eq d m = ap (reconcile_with (model_result answer d)) (find_deterministic d m)

  reviewed_eq :
      (d : CheckDefinition)
      → Has d rubric_checks
      → reviewed d
        ≡ enforce_with
            (deterministic_result run d)
            (some (reconcile_with (model_result answer d) (some (deterministic_result run d))))
  unfolding enforce_failure deterministic_result
  reviewed_eq d m = ap (enforce_with (deterministic_result run d)) (
      result_of-map reconciled reconciled-check_id rubric_checks d rubric-distinct m
      ∙ ap some (reconciled_eq d m))

  pub reviewed-passed :
      (d : CheckDefinition) → Has d rubric_checks → (reviewed d).passed ≡ is_clear run answer d
  unfolding deterministic_result is_clear
  reviewed-passed d m =
      let det = deterministic_result run d in
      let r = model_result answer d in
      ap (λ x. x.passed) (reviewed_eq d m)
      ∙ enforce_with-passed det (reconcile_with r (some det))
      ∙ ap (λ b. is_empty (run d) && b) (reconcile_with-passed r det)
      ∙ ground arith

  pub reviewed-severity :
      (d : CheckDefinition)
      → Has d rubric_checks
      → (reviewed d).severity_if_failed ≡ d.severity_if_failed
  reviewed-severity d m =
      let det = deterministic_result run d in
      let r = model_result answer d in
      ap (λ x. x.severity_if_failed) (reviewed_eq d m)
      ∙ enforce_with-severity det (reconcile_with r (some det))
      ∙ reconcile_with-severity r (some det)
      ∙ or_unevaluated-severity (items_of (get "per_check_results" (payload_of answer))) d m

  pub reviewed-is_failed_blocking :
      (d : CheckDefinition)
      → Has d rubric_checks
      → is_failed_blocking (reviewed d)
        ≡ (not (is_clear run answer d) && is_blocking d.severity_if_failed)
  reviewed-is_failed_blocking d m = rw (reviewed-passed d m, reviewed-severity d m) refl

-- No blocking check fails, seen check by check.
unfoldable pub is_acceptable : (CheckDefinition → List CriticFinding) → Checked Json → Bool
unfolding is_clear rubric_checks
is_acceptable run answer =
    all (λ d. not (is_blocking d.severity_if_failed) || is_clear run answer d) rubric_checks

not-any :
    {A : Type 0} (p q : A → Bool) (xs : List A)
    → ((x : A) → not (p x) ≡ q x)
    → not (any p xs) ≡ all q xs
not-any p q [] h = refl
not-any p q (x ∷ xs) h = ground (arith, h x, not-any p q xs h)

pub compute_verdict-nil :
    (A : Type 0) (results : List CriticCheckResult)
    → is_accept (compute_verdict {A = A} results []) ≡ not (any is_failed_blocking results)
unfolding compute_verdict
compute_verdict-nil A results =
    if-split (λ v. is_accept v ≡ not (any is_failed_blocking results))
      (any is_failed_blocking results) (λ h. ground arith) (λ h. ground arith)

any-reviewed :
    (run : CheckDefinition → List CriticFinding) (answer : Checked Json)
    → not (any is_failed_blocking (reviewed_results run answer)) ≡ is_acceptable run answer
unfolding is_acceptable
any-reviewed run answer =
    let fails =
      λ (d : CheckDefinition). not (is_clear run answer d) && is_blocking d.severity_if_failed in
    ap (λ results. not (any is_failed_blocking results)) (reviewed_results-map run answer)
    ∙ ap not (
        any-map_of_Has is_failed_blocking (reviewed run answer) fails rubric_checks
          (reviewed-is_failed_blocking run answer))
    ∙ not-any fails (λ d. not (is_blocking d.severity_if_failed) || is_clear run answer d)
        rubric_checks (λ d. ground arith)

-- The review accepts a plan exactly when the validator has no errors and each blocking check of
-- the rubric finds nothing itself and is passed by the model or failed without a finding of the
-- model's own.
pub review-verdict :
    {A : Type 0} (p : Printing) (run : CheckDefinition → List CriticFinding) (errors : List A)
    (answer : Checked Json)
    → is_accept (review p run errors answer).verdict ≡ (is_empty errors && is_acceptable run answer)
unfolding review compute_verdict
review-verdict {A = A} p run [] answer =
    compute_verdict-nil A (reviewed_results run answer) ∙ any-reviewed run answer
review-verdict p run (e ∷ errors) answer = refl
