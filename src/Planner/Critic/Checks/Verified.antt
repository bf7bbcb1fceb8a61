-- ===== src/Planner/Critic/Checks/Verified.antt =====
-- The order of the QA slices of a plan that the review of planner/critic.py accepts.
use pgloom_engineering.Base.{
  String, ◌≡◌, refl, Bool, true, false, not, ◌&&◌, ◌||◌, none, some, List, [], ◌++◌, arith,
  is_empty, flat_map, map, Has, inl, inr, ◌⊎◌, append-eq-nil, ◌==◌, sym, ◌∙◌, Has-map,
}
use pgloom_engineering.Base.Json.{Json}
use pgloom_engineering.Contracts.{Checked, PlanContract, TaskSliceContract}
use pgloom_engineering.Planner.Critic.{CriticFinding, is_accept, finding}
use pgloom_engineering.Planner.Critic.Rubric.{CheckDefinition, rubric_checks}
use pgloom_engineering.Planner.Critic.Review.{review, Printing}
use pgloom_engineering.Planner.Critic.Checks.{CheckContext, finding_when}
use pgloom_engineering.Planner.Critic.Checks.Roles.{
  qa_verify_findings, scrutiny_findings, usertest_findings, task_type_slices, role_slices, id_set,
  scrutiny_command_findings, early_scrutiny_findings, usertest_command_findings,
  early_usertest_findings, validator_findings, validators_findings, order_findings,
}
use pgloom_engineering.Planner.Critic.Checks.Dispatch.{run_deterministic_check}
use pgloom_engineering.Planner.Critic.Checks.Achievable.{
  accepted-nil, check_named, Has-filter_of, flat_map-eq-nil, finding_when-eq-nil,
}
use pgloom_engineering.Planner.Critic.Dependencies.{depends_on_transitively, DependsOn}
use pgloom_engineering.Planner.Critic.Checks.Order.{
  found-DependsOn, id_set-contains, checked-Has, if-nil,
}

-- The first slice has to come before the second: a reviewer before a scrutiny, a scrutiny before a
-- user test.
abbrev pub is_required_order : TaskSliceContract → TaskSliceContract → Bool
is_required_order s t =
    ((s.role == "reviewer") && (t.task_type == "engineering.qa.verify.scrutiny"))
    || ((s.task_type == "engineering.qa.verify.scrutiny")
        && (t.task_type == "engineering.qa.verify.usertest"))

or-cases : (a b : Bool) → (a || b) ≡ true → (a ≡ true) ⊎ (b ≡ true)
or-cases true b h = inl refl
or-cases false b h = inr h

order_findings-nil :
    (plan : PlanContract) (f : CriticFinding) (t : TaskSliceContract) (others : List String)
    (other : String)
    → order_findings plan f t others ≡ []
    → Has other others
    → DependsOn plan.task_slices other t.slice_id
order_findings-nil plan f t others other h m = found-DependsOn plan.task_slices t.slice_id other (
    ground (
      arith,
      finding_when-eq-nil (not (depends_on_transitively plan.task_slices t.slice_id other)) f (
          flat_map-eq-nil
            (λ o. finding_when (not (depends_on_transitively plan.task_slices t.slice_id o)) f)
            others h other m),
    ))

verify_run :
    (x : CheckContext) (plan : PlanContract)
    → run_deterministic_check x plan (check_named "check_qa_verify_present")
      ≡ qa_verify_findings x (check_named "check_qa_verify_present") plan
unfolding run_deterministic_check rubric_checks
verify_run x plan = refl

-- A validator that a check passes comes after what it has to follow.
scrutiny_findings-nil :
    (d : CheckDefinition) (plan : PlanContract) (t r : TaskSliceContract)
    → scrutiny_findings d plan t ≡ []
    → Has r plan.task_slices
    → (r.role == "reviewer") ≡ true
    → DependsOn plan.task_slices r.slice_id t.slice_id
unfolding scrutiny_findings early_scrutiny_findings
scrutiny_findings-nil d plan t r h m e =
    let early =
      append-eq-nil (scrutiny_command_findings d t) (early_scrutiny_findings d plan t) h in
    order_findings-nil plan
      (finding d "qa_verify_not_after_reviewer" "QA scrutiny must depend on every reviewer slice."
        (some t.slice_id))
      t (id_set (role_slices plan "reviewer")) r.slice_id early.1
      (id_set-contains (role_slices plan "reviewer") r
        (Has-filter_of (λ s. s.role == "reviewer") plan.task_slices r m e))

usertest_findings-nil :
    (d : CheckDefinition) (plan : PlanContract) (t s : TaskSliceContract)
    → usertest_findings d plan t ≡ []
    → Has s plan.task_slices
    → (s.task_type == "engineering.qa.verify.scrutiny") ≡ true
    → DependsOn plan.task_slices s.slice_id t.slice_id
unfolding usertest_findings early_usertest_findings
usertest_findings-nil d plan t s h m e =
    let scrutinies = task_type_slices plan "engineering.qa.verify.scrutiny" in
    let early =
      append-eq-nil (usertest_command_findings d t) (early_usertest_findings d plan t) h in
    order_findings-nil plan
      (finding d "qa_usertest_not_after_scrutiny" "QA user-test must depend on QA scrutiny."
        (some t.slice_id))
      t (map (λ u. u.slice_id) scrutinies) s.slice_id early.1
      (Has-map (λ u. u.slice_id) scrutinies s
        (Has-filter_of (λ u. u.task_type == "engineering.qa.verify.scrutiny") plan.task_slices s m
          e))

-- Where the checks of the validators find nothing, they find nothing of each of them.
validators_findings-nil :
    (x : CheckContext) (d : CheckDefinition) (plan : PlanContract)
    (scrutinies usertests : List TaskSliceContract)
    → validators_findings x d plan scrutinies usertests ≡ []
    → (flat_map (scrutiny_findings d plan) scrutinies ≡ [])
      × (flat_map (usertest_findings d plan) usertests ≡ [])
unfolding validators_findings
validators_findings-nil x d plan scrutinies usertests h =
    let missing = finding_when (is_empty usertests) (
      finding d "qa_usertest_missing" "Missing engineering.qa.verify.usertest slice after scrutiny."
        none) in
    let users = flat_map (usertest_findings d plan) usertests in
    let scrutinised = flat_map (scrutiny_findings d plan) scrutinies in
    let paths = flat_map (validator_findings x d) (scrutinies ++ usertests) in
    let (others, of_usertests) = append-eq-nil (paths ++ scrutinised ++ missing) users h in
    let (before, _) = append-eq-nil (paths ++ scrutinised) missing others in
    ((append-eq-nil paths scrutinised before).1, of_usertests)

-- In a plan that the review accepts, each scrutiny slice depends on each reviewer slice, and each
-- user-test slice on each scrutiny slice.
pub accepted-qa_order :
    {A : Type 0} (p : Printing) (x : CheckContext) (plan : PlanContract) (errors : List A)
    (answer : Checked Json) (s t : TaskSliceContract)
    → is_accept (review p (run_deterministic_check x plan) errors answer).verdict ≡ true
    → Has s plan.task_slices
    → Has t plan.task_slices
    → is_required_order s t ≡ true
    → DependsOn plan.task_slices s.slice_id t.slice_id
unfolding qa_verify_findings rubric_checks
accepted-qa_order p x plan errors answer s t h m n r =
    let d = check_named "check_qa_verify_present" in
    let run = run_deterministic_check x plan in
    let clear =
      sym (verify_run x plan)
      ∙ accepted-nil p run errors answer d h (checked-Has "check_qa_verify_present" d refl) refl in
    let scrutinies = task_type_slices plan "engineering.qa.verify.scrutiny" in
    let usertests = task_type_slices plan "engineering.qa.verify.usertest" in
    let missing =
      finding d "qa_scrutiny_missing" "Missing engineering.qa.verify.scrutiny slice." none in
    let (of_scrutinies, of_usertests) = validators_findings-nil x d plan scrutinies usertests (
      if-nil (is_empty scrutinies) missing [] (validators_findings x d plan scrutinies usertests)
        clear) in
    elim (or-cases (s.role == "reviewer" && t.task_type == "engineering.qa.verify.scrutiny") _ r) [
      | inl one ↦
          scrutiny_findings-nil d plan t s
            (flat_map-eq-nil (scrutiny_findings d plan) scrutinies of_scrutinies t (
              Has-filter_of (λ u. u.task_type == "engineering.qa.verify.scrutiny") plan.task_slices
                t n (ground (arith, one))))
            m (ground (arith, one))
      | inr two ↦
          usertest_findings-nil d plan t s
            (flat_map-eq-nil (usertest_findings d plan) usertests of_usertests t (
              Has-filter_of (λ u. u.task_type == "engineering.qa.verify.usertest") plan.task_slices
                t n (ground (arith, two))))
            m (ground (arith, two))
    ]
