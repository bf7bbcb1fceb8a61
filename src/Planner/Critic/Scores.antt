-- ===== src/Planner/Critic/Scores.antt =====
-- The review of planner/critic.py against the checks that the program runs itself, and its score.
use pgloom_engineering.Base.{
  ℕ, ◌-◌, ◌*◌, ◌≤◌, String, ◌≡◌, refl, sym, ap, ◌∙◌, Bool, true, false, not, ◌&&◌, List, [], ◌∷◌,
  arith, length, is_empty, filter, any, Has, inl, inr, subst, leb, filter-nil_of, any-eq-false,
  if-split, any-map_of_Has, length-filter-map_le, ◌⊎◌,
}
use pgloom_engineering.Base.Json.{Json}
use pgloom_engineering.Contracts.{Checked}
use pgloom_engineering.Planner.Critic.{
  CriticFinding, CriticCheckResult, Verdict, accept, revise, is_accept, is_failed_blocking,
  is_failed_advisory, compute_verdict,
}
use pgloom_engineering.Planner.Critic.Rubric.{is_blocking, CheckDefinition, rubric_checks}
use pgloom_engineering.Planner.Critic.Review.{
  deterministic_result, deterministic_check_results, reviewed_results, review, Printing,
  deterministic_accept_verdict, at_most, blocking_findings, findings_in, build_plan_quality_report,
}
use pgloom_engineering.Planner.Critic.Accepting.{
  is_clear, reviewed, reviewed_results-map, reviewed-severity, reviewed-is_failed_blocking,
  compute_verdict-nil,
}

-- The program's own failures, check by check.
any-deterministic :
    (run : CheckDefinition → List CriticFinding)
    → any is_failed_blocking (deterministic_check_results run)
      ≡ any (λ d. not (is_empty (run d)) && is_blocking d.severity_if_failed) rubric_checks
unfolding deterministic_check_results deterministic_result
any-deterministic run =
    any-map_of_Has is_failed_blocking (deterministic_result run)
      (λ d. not (is_empty (run d)) && is_blocking d.severity_if_failed) rubric_checks (λ d m. refl)

any-imp_false :
    {A : Type 0} (p q : A → Bool) (xs : List A)
    → ((x : A) → q x ≡ false → p x ≡ false)
    → any q xs ≡ false
    → any p xs ≡ false
any-imp_false p q [] h k = refl
any-imp_false p q (x ∷ xs) h k = ground (arith, h x, any-imp_false p q xs h)

-- Where the review finds no failure, the program's own checks find none.
pub deterministic_clear :
    (run : CheckDefinition → List CriticFinding) (answer : Checked Json)
    → any is_failed_blocking (reviewed_results run answer) ≡ false
    → any is_failed_blocking (deterministic_check_results run) ≡ false
unfolding is_clear
deterministic_clear run answer h =
    any-deterministic run
    ∙ any-imp_false (λ d. not (is_empty (run d)) && is_blocking d.severity_if_failed)
        (λ d. not (is_clear run answer d) && is_blocking d.severity_if_failed) rubric_checks
        (λ d k. ground arith)
        (sym (
            any-map_of_Has is_failed_blocking (reviewed run answer)
              (λ d. not (is_clear run answer d) && is_blocking d.severity_if_failed) rubric_checks
              (reviewed-is_failed_blocking run answer))
          ∙ ap (any is_failed_blocking) (sym (reviewed_results-map run answer))
          ∙ h)

-- A plan that the review with a model's answer accepts is accepted by the verdict without a model
-- too.
pub review-deterministic :
    {A : Type 0} (p : Printing) (run : CheckDefinition → List CriticFinding) (errors : List A)
    (answer : Checked Json) (rationale : String) (preempted : Bool)
    → is_accept (review p run errors answer).verdict ≡ true
    → is_accept (deterministic_accept_verdict run errors rationale preempted).verdict ≡ true
unfolding review deterministic_accept_verdict compute_verdict
review-deterministic {A = A} p run [] answer rationale preempted h =
    let accepted = sym (compute_verdict-nil A (reviewed_results run answer)) ∙ h in
    let clear = deterministic_clear run answer (ground (arith, accepted)) in
    compute_verdict-nil A (deterministic_check_results run) ∙ ap not clear
review-deterministic p run (e ∷ errors) answer rationale preempted h = cc

at_most_le : (bound n : ℕ) → at_most bound n ≤ bound
at_most_le bound n = if-split (λ k. k ≤ bound) (leb n bound) (λ h. ground arith) (λ h. ground arith)

score_le :
    {A : Type 0} (v : Verdict) (errors : List A) (model deterministic : List CriticCheckResult)
    → is_accept v ≡ false
    → (build_plan_quality_report v errors model deterministic).score ≤ 79
unfolding build_plan_quality_report
score_le v errors model deterministic h =
    let points =
      100
      - length errors * 20
      - length (blocking_findings deterministic) * 15
      - (length (blocking_findings model) - length (blocking_findings deterministic)) * 10
      - length (filter is_failed_advisory model) * 3 in
    rw (h) (at_most_le 79 points)

blocking_findings-nil :
    (results : List CriticCheckResult)
    → any is_failed_blocking results ≡ false
    → blocking_findings results ≡ []
unfolding blocking_findings findings_in
blocking_findings-nil results h =
    ap findings_in
      (filter-nil_of is_failed_blocking results (any-eq-false is_failed_blocking results h))

reviewed_advisory :
    (run : CheckDefinition → List CriticFinding) (answer : Checked Json) (d : CheckDefinition)
    → Has d rubric_checks
    → is_failed_advisory (reviewed run answer d) ≡ true
    → not (is_blocking d.severity_if_failed) ≡ true
reviewed_advisory run answer d m h =
    ap (λ s. not (is_blocking s)) (sym (reviewed-severity run answer d m)) ∙ ground (arith, h)

advisory_le :
    (run : CheckDefinition → List CriticFinding) (answer : Checked Json)
    → length (filter is_failed_advisory (reviewed_results run answer)) ≤ 3
unfolding rubric_checks
advisory_le run answer =
    subst (λ results. length (filter is_failed_advisory results) ≤ 3)
      (sym (reviewed_results-map run answer))
      (length-filter-map_le is_failed_advisory (reviewed run answer)
        (λ d. not (is_blocking d.severity_if_failed)) rubric_checks
        (λ d m h. reviewed_advisory run answer d m h))

accepted_score :
    (A : Type 0) (v : Verdict) (model deterministic : List CriticCheckResult)
    → is_accept v ≡ true
    → any is_failed_blocking model ≡ false
    → any is_failed_blocking deterministic ≡ false
    → length (filter is_failed_advisory model) ≤ 3
    → 91 ≤ (build_plan_quality_report {A = A} v [] model deterministic).score
unfolding build_plan_quality_report
accepted_score A v model deterministic h a b c =
    rw (h, blocking_findings-nil model a, blocking_findings-nil deterministic b) (omega arith)

score_le_100 :
    {A : Type 0} (errors : List A) (model deterministic : List CriticCheckResult)
    → (build_plan_quality_report accept errors model deterministic).score ≤ 100
unfolding build_plan_quality_report
score_le_100 errors model deterministic = omega arith

-- A verdict and a score that belong together.
abbrev pub Scored : Verdict → ℕ → Type 0
Scored v score = ((v ≡ accept) × ((91 ≤ score) × (score ≤ 100))) ⊎ ((v ≡ revise) × (score ≤ 79))

scored :
    (A : Type 0) (errors : List A) (model deterministic : List CriticCheckResult)
    → (any is_failed_blocking model ≡ false → any is_failed_blocking deterministic ≡ false)
    → length (filter is_failed_advisory model) ≤ 3
    → let v = compute_verdict model errors in
      Scored v (build_plan_quality_report v errors model deterministic).score
unfolding compute_verdict
scored A (e ∷ errors) model deterministic clear few =
    inr (refl, score_le revise (e ∷ errors) model deterministic refl)
scored A [] model deterministic clear few =
    if-split (λ v. Scored v (build_plan_quality_report {A = A} v [] model deterministic).score)
      (any is_failed_blocking model)
      (λ h. inr (refl, score_le {A = A} revise [] model deterministic refl))
      (λ h. inl (
        refl,
        (
          accepted_score A accept model deterministic refl h (clear h) few,
          score_le_100 {A = A} [] model deterministic,
        ),
      ))

-- A review accepts with a score between 91 and 100, or asks for a revision with a score of at
-- most 79.
pub review-score :
    {A : Type 0} (p : Printing) (run : CheckDefinition → List CriticFinding) (errors : List A)
    (answer : Checked Json)
    → let v = review p run errors answer in Scored v.verdict v.quality_report.score
unfolding review
review-score {A = A} p run errors answer =
    scored A errors (reviewed_results run answer) (deterministic_check_results run)
      (deterministic_clear run answer) (advisory_le run answer)
