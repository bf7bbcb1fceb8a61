-- ===== src/Planner/Critic/Checks/Signoffs.antt =====
-- The milestones of a plan that the review of planner/critic.py accepts, and their signoff in
-- worker.py.
use pgloom_engineering.Base.{
  String, ◌≡◌, refl, sym, ◌∙◌, subst, ap, true, false, not, ◌&&◌, ◌||◌, none, some, List, [], ◌∷◌,
  ◌++◌, arith, is_empty, Has, inl, inr, contains, ◌==◌, eq-of_eq, find_last-Has, find_last-eq-some,
  append-eq-nil, Option-cases, Bool-cases, flat_map,
}
use pgloom_engineering.Base.Json.{Json}
use pgloom_engineering.Contracts.{
  Checked, PlanContract, MilestoneContract, TaskSliceContract, SignoffPolicy, scrutiny_only,
  scrutiny_and_usertest,
}
use pgloom_engineering.Workflow.Rows.{TaskContractRow}
use pgloom_engineering.Worker.Signoff.{
  QaSignoff, milestone_signed_off, of_milestone, is_passing_row, task_by_slice, validator_passed,
  any_passed, is_scrutiny_only,
}
use pgloom_engineering.Planner.Critic.{is_accept, finding}
use pgloom_engineering.Planner.Critic.Rubric.{rubric_checks}
use pgloom_engineering.Planner.Critic.Review.{review, Printing}
use pgloom_engineering.Planner.Critic.Dependencies.{slice_of}
use pgloom_engineering.Planner.Critic.Checks.{
  CheckContext, milestone_findings, findings_of_milestone, slice_types, is_unachievable,
  unachievable_findings, unachievable_message, validation_contract_findings, unknown_slice_findings,
  needs_both, type_of,
}
use pgloom_engineering.Planner.Critic.Checks.Dispatch.{run_deterministic_check}
use pgloom_engineering.Planner.Critic.Checks.Order.{checked-Has, if-nil}
use pgloom_engineering.Planner.Critic.Checks.Achievable.{
  accepted-nil, check_named, flat_map-eq-nil, finding_when-eq-nil,
}

milestone_run :
    (x : CheckContext) (plan : PlanContract)
    → run_deterministic_check x plan (check_named "check_milestones_present")
      ≡ milestone_findings (check_named "check_milestones_present") plan
unfolding run_deterministic_check rubric_checks
milestone_run x plan = refl

-- The rows of the validator slices of a plan have all passed.
abbrev pub ValidatorsPassed : PlanContract → List TaskContractRow → Type 0
ValidatorsPassed plan rows =
    (s : TaskSliceContract)
    → Has s plan.task_slices
    → contains ("engineering.qa.verify.scrutiny" ∷ "engineering.qa.verify.usertest" ∷ [])
        s.task_type
      ≡ true
    → is_passing_row s.task_type (task_by_slice rows s.slice_id) ≡ true

-- A slice of a validator's type has a row that passed.
slice-passed :
    (plan : PlanContract) (rows : List TaskContractRow) (i t : String) (s : TaskSliceContract)
    → ValidatorsPassed plan rows
    → contains ("engineering.qa.verify.scrutiny" ∷ "engineering.qa.verify.usertest" ∷ []) t ≡ true
    → slice_of plan.task_slices i ≡ some s
    → (t == s.task_type) ≡ true
    → is_passing_row t (task_by_slice rows i) ≡ true
unfolding slice_of
slice-passed plan rows i t s passed v found same =
    let type = eq-of_eq t s.task_type same in
    let test = λ (u : TaskSliceContract). u.slice_id == i in
    let id = eq-of_eq s.slice_id i (find_last-eq-some test plan.task_slices s found) in
    let row = passed s (find_last-Has test plan.task_slices s found) (
      subst
        (λ y.
          contains ("engineering.qa.verify.scrutiny" ∷ "engineering.qa.verify.usertest" ∷ []) y
          ≡ true)
        type v) in
    subst (λ y. is_passing_row y (task_by_slice rows i) ≡ true) (sym type)
      (subst (λ y. is_passing_row s.task_type (task_by_slice rows y) ≡ true) id row)

-- A milestone with a slice of the type has a row of the type that passed.
types-validator_passed :
    (plan : PlanContract) (rows : List TaskContractRow) (ids : List String) (t : String)
    → ValidatorsPassed plan rows
    → contains ("engineering.qa.verify.scrutiny" ∷ "engineering.qa.verify.usertest" ∷ []) t ≡ true
    → contains (flat_map (λ i. type_of (slice_of plan.task_slices i)) ids) t ≡ true
    → validator_passed rows ids t ≡ true
unfolding validator_passed
types-validator_passed plan rows [] t passed v h = cc
types-validator_passed plan rows (i ∷ ids) t passed v h =
    let later = types-validator_passed plan rows ids t passed v in
    elim (Option-cases (slice_of plan.task_slices i)) [
      | inl unknown ↦ ground (
        arith,
        later (
            subst
              (λ o.
                contains (type_of o ++ flat_map (λ j. type_of (slice_of plan.task_slices j)) ids) t
                ≡ true)
              unknown h),
      )
      | inr (s, found) ↦
          let either =
            subst
              (λ o.
                contains (type_of o ++ flat_map (λ j. type_of (slice_of plan.task_slices j)) ids) t
                ≡ true)
              found h in
          elim (Bool-cases (t == s.task_type)) [
            | inl same ↦ ground (arith, slice-passed plan rows i t s passed v found same)
            | inr other ↦ ground (arith, later (ground (arith, either, other)))
          ]
    ]

-- Without sign-off rows of the milestone, those of its validators decide.
signed_off-by_rows :
    (signoffs : List QaSignoff) (rows : List TaskContractRow) (m : MilestoneContract)
    → of_milestone m signoffs ≡ []
    → milestone_signed_off signoffs rows m ≡ (
        validator_passed rows m.slice_ids "engineering.qa.verify.scrutiny"
        && (is_scrutiny_only m.signoff_policy
            || validator_passed rows m.slice_ids "engineering.qa.verify.usertest"))
unfolding milestone_signed_off any_passed
signed_off-by_rows signoffs rows m h = let nobody = ap any_passed h in ground (arith, nobody)

needs_both-or : (policy : SignoffPolicy) → needs_both policy ≡ not (is_scrutiny_only policy)
needs_both-or scrutiny_only = refl
needs_both-or scrutiny_and_usertest = refl

achievable-passed :
    (plan : PlanContract) (rows : List TaskContractRow) (m : MilestoneContract)
    → is_unachievable plan m ≡ false
    → ValidatorsPassed plan rows
    → (validator_passed rows m.slice_ids "engineering.qa.verify.scrutiny"
        && (is_scrutiny_only m.signoff_policy
            || validator_passed rows m.slice_ids "engineering.qa.verify.usertest"))
      ≡ true
unfolding is_unachievable slice_types
achievable-passed plan rows m h passed =
    let scrutiny =
      types-validator_passed plan rows m.slice_ids "engineering.qa.verify.scrutiny" passed refl in
    let usertest =
      types-validator_passed plan rows m.slice_ids "engineering.qa.verify.usertest" passed refl in
    ground (arith, scrutiny, usertest, needs_both-or m.signoff_policy)

-- A milestone of a plan that the review accepts, without sign-off rows of its own, is signed off
-- once the rows of the validator slices of the plan have passed.
pub accepted-milestone_signed_off :
    {A : Type 0} (p : Printing) (x : CheckContext) (plan : PlanContract) (errors : List A)
    (answer : Checked Json) (m : MilestoneContract) (signoffs : List QaSignoff)
    (rows : List TaskContractRow)
    → is_accept (review p (run_deterministic_check x plan) errors answer).verdict ≡ true
    → Has m plan.milestones
    → of_milestone m signoffs ≡ []
    → ValidatorsPassed plan rows
    → milestone_signed_off signoffs rows m ≡ true
unfolding milestone_findings findings_of_milestone unachievable_findings rubric_checks
accepted-milestone_signed_off p x plan errors answer m signoffs rows h k none_yet passed =
    let d = check_named "check_milestones_present" in
    let run = run_deterministic_check x plan in
    let clear =
      sym (milestone_run x plan)
      ∙ accepted-nil p run errors answer d h (checked-Has "check_milestones_present" d refl) refl in
    let missing = finding d "milestones_missing" "Plan must define milestone contracts." none in
    let own =
      flat_map-eq-nil (findings_of_milestone d plan) plan.milestones
        (if-nil (is_empty plan.milestones) missing []
          (flat_map (findings_of_milestone d plan) plan.milestones) clear)
        m k in
    let (front, _) =
      append-eq-nil (validation_contract_findings d m ++ unachievable_findings d plan m)
        (unknown_slice_findings d plan m) own in
    let (_, none_found) =
      append-eq-nil (validation_contract_findings d m) (unachievable_findings d plan m) front in
    let achievable =
      finding_when-eq-nil (is_unachievable plan m)
        (finding d "milestone_validator_signoff_unachievable"
          (unachievable_message m.signoff_policy) (some m.milestone_id))
        none_found in
    signed_off-by_rows signoffs rows m none_yet ∙ achievable-passed plan rows m achievable passed
