-- ===== src/Planner/Critic/Review.antt =====
-- The verdict of planner/critic.py: the model's results are reconciled with the program's own, which
-- overrule them where they fail, and the report scores the outcome.
use pgloom_engineering.Base.{
  ℕ, ◌-◌, ◌*◌, String, ◌<>◌, Bool, true, false, not, ◌&&◌, ◌||◌, Option, none, some, List, [], ◌∷◌,
  ◌++◌, map, if◌then◌else◌, length, is_empty, filter, any, all, leb, ◌==◌,
}
use pgloom_engineering.Base.Json.{
  Json, string, array, object, nil, Fields, end, field, get, is_truthy,
}
use pgloom_engineering.Contracts.{Checked, ok, value_error}
use pgloom_engineering.Planner.Critic.{
  CriticFinding, CriticCheckResult, Verdict, accept, is_accept, is_failed_blocking,
  is_failed_advisory, compute_verdict, result_of, normalize_check_results,
}
use pgloom_engineering.Planner.Critic.Rubric.{is_blocking, CheckDefinition, rubric_checks}

abbrev pub is_unsupported_code : CriticFinding → Bool
is_unsupported_code f =
    (f.code == "critic_failed_check_without_finding") || (f.code == "critic_did_not_evaluate_check")

-- The model gave no finding of its own.
unfoldable pub only_unsupported_model_findings : List CriticFinding → Bool
only_unsupported_model_findings findings = all is_unsupported_code findings

-- A failure without findings of its own is set aside where the program's check passes.
abbrev pub reconcile_with : CriticCheckResult → Option CriticCheckResult → CriticCheckResult
reconcile_with r none = r
reconcile_with r (some d) =
    if not r.passed && (d.passed && only_unsupported_model_findings r.findings)
    then record r { passed = true; findings = [] }
    else r

unfoldable pub reconcile_result : List CriticCheckResult → CriticCheckResult → CriticCheckResult
unfolding result_of only_unsupported_model_findings
reconcile_result deterministic r = reconcile_with r (result_of r.check_id deterministic)

unfoldable pub reconcile_model_results_with_deterministic_checks :
    List CriticCheckResult → List CriticCheckResult → List CriticCheckResult
unfolding reconcile_result
reconcile_model_results_with_deterministic_checks model deterministic =
    map (reconcile_result deterministic) model

abbrev pub same_slice : Option String → Option String → Bool
same_slice none none = true
same_slice (some s) (some t) = s == t
same_slice _ _ = false

-- The two findings have the same dump.
unfoldable pub same_finding : CriticFinding → CriticFinding → Bool
same_finding f g =
    (if is_blocking f.severity then is_blocking g.severity else not (is_blocking g.severity))
    && ((f.check_id == g.check_id)
        && ((f.code == g.code) && (same_slice f.slice_id g.slice_id && (f.message == g.message))))

-- The findings of a failed check of the program join the model's, but for those already there.
abbrev pub enforce_with : CriticCheckResult → Option CriticCheckResult → CriticCheckResult
enforce_with d none = d
enforce_with d (some m) = if d.passed then m else record m {
  passed = false;
  findings = m.findings ++ filter (λ f. not (any (same_finding f) m.findings)) d.findings;
}

unfoldable pub enforce_failure : List CriticCheckResult → CriticCheckResult → CriticCheckResult
unfolding result_of same_finding
enforce_failure model d = enforce_with d (result_of d.check_id model)

unfoldable pub enforce_deterministic_failures :
    List CriticCheckResult → List CriticCheckResult → List CriticCheckResult
unfolding enforce_failure
enforce_deterministic_failures model deterministic = map (enforce_failure model) deterministic

pub record PlanQualityReport : Type 0 where
  pub verdict : Verdict
  pub validator_error_count : ℕ
  pub blocking_check_count : ℕ
  pub advisory_check_count : ℕ
  pub deterministic_blocking_findings : List CriticFinding
  pub model_blocking_findings : List CriticFinding
  pub score : ℕ

-- `[finding for result in results for finding in result.findings]`
unfoldable pub findings_in : List CriticCheckResult → List CriticFinding
findings_in [] = []
findings_in (r ∷ rest) = r.findings ++ findings_in rest

unfoldable pub blocking_findings : List CriticCheckResult → List CriticFinding
unfolding findings_in
blocking_findings results = findings_in (filter is_failed_blocking results)

-- `min(n, bound)`
abbrev pub at_most : ℕ → ℕ → ℕ
at_most bound n = if leb n bound then n else bound

-- The differences stop at 0, as `max(0, …)` does.
unfoldable pub build_plan_quality_report :
    {A : Type 0}
    → Verdict
    → List A
    → List CriticCheckResult
    → List CriticCheckResult
    → PlanQualityReport
unfolding blocking_findings
build_plan_quality_report verdict errors model deterministic =
    let advisory_count = length (filter is_failed_advisory model) in
    let points =
      100
      - length errors * 20
      - length (blocking_findings deterministic) * 15
      - (length (blocking_findings model) - length (blocking_findings deterministic)) * 10
      - advisory_count * 3 in
    record {
      verdict = verdict;
      validator_error_count = length errors;
      blocking_check_count = length (filter is_failed_blocking model);
      advisory_check_count = advisory_count;
      deterministic_blocking_findings = blocking_findings deterministic;
      model_blocking_findings = blocking_findings model;
      score = if is_accept verdict then points else at_most 79 points;
    }

pub record CriticVerdict : Type 0 where
  pub verdict : Verdict
  pub rationale : String
  pub findings : List CriticFinding
  pub per_check_results : List CriticCheckResult
  pub quality_report : PlanQualityReport

-- `run` is `_run_deterministic_check` for the plan under review.
unfoldable pub deterministic_result :
    (CheckDefinition → List CriticFinding) → CheckDefinition → CriticCheckResult
deterministic_result run d = record {
  check_id = d.check_id;
  name = d.name;
  passed = is_empty (run d);
  severity_if_failed = d.severity_if_failed;
  findings = run d;
}

unfoldable pub deterministic_check_results :
    (CheckDefinition → List CriticFinding) → List CriticCheckResult
unfolding deterministic_result
deterministic_check_results run = map (deterministic_result run) rubric_checks

-- A model's answer that is no JSON object is one without results.
abbrev pub payload_of : Checked Json → Fields
payload_of (ok (object payload)) = payload
payload_of (ok _) =
    field "rationale" (string "critic response invalid: critic response must be a JSON object")
      (field "per_check_results" (array nil) end)
payload_of (value_error exc) =
    field "rationale" (string ("critic response invalid: " <> exc))
      (field "per_check_results" (array nil) end)

unfoldable pub reviewed_results :
    (CheckDefinition → List CriticFinding) → Checked Json → List CriticCheckResult
unfolding normalize_check_results deterministic_check_results
    reconcile_model_results_with_deterministic_checks enforce_deterministic_failures
reviewed_results run answer =
    let deterministic = deterministic_check_results run in
    let results = normalize_check_results (get "per_check_results" (payload_of answer)) in
    let reconciled = reconcile_model_results_with_deterministic_checks results deterministic in
    enforce_deterministic_failures reconciled deterministic

-- Python's `str` of a JSON value and of a number.
pub record Printing : Type 0 where
  pub str : Json → String
  pub numeral : ℕ → String

abbrev default_rationale : Printing → Verdict → List CriticFinding → String
default_rationale p accept findings = "All blocking rubric checks passed."
default_rationale p _ findings =
    p.numeral (length findings) <> " rubric finding(s) require revision."

abbrev rationale_of : Printing → Fields → Verdict → List CriticFinding → String
rationale_of p payload verdict findings = elim (get "rationale" payload) [
  | none ↦ default_rationale p verdict findings
  | some v ↦ if is_truthy v then p.str v else default_rationale p verdict findings
]

-- `CriticRunner.review`, from the JSON taken out of the model's answer on
unfoldable pub review :
    {A : Type 0}
    → Printing
    → (CheckDefinition → List CriticFinding)
    → List A
    → Checked Json
    → CriticVerdict
unfolding reviewed_results findings_in compute_verdict build_plan_quality_report
review p run errors answer =
    let results = reviewed_results run answer in
    let verdict = compute_verdict results errors in
    record {
      verdict = verdict;
      rationale = rationale_of p (payload_of answer) verdict (findings_in results);
      findings = findings_in results;
      per_check_results = results;
      quality_report =
          build_plan_quality_report verdict errors results (deterministic_check_results run);
    }

-- The verdict without a model, when the model is out of reach or not needed.
unfoldable pub deterministic_accept_verdict :
    {A : Type 0} → (CheckDefinition → List CriticFinding) → List A → String → Bool → CriticVerdict
unfolding deterministic_check_results findings_in compute_verdict build_plan_quality_report
deterministic_accept_verdict run errors rationale preempted =
    let results = deterministic_check_results run in
    let verdict = compute_verdict results errors in
    record {
      verdict = verdict;
      rationale =
          rationale
          <> " (preempted_model_critic="
          <> (if preempted then "true" else "false")
          <> ")";
      findings = findings_in results;
      per_check_results = results;
      quality_report = build_plan_quality_report verdict errors results results;
    }
