-- ===== src/Tests/Reviews.antt =====
-- A plan that the review of planner/critic.py accepts, and its theorems applied to it.
use pgloom_engineering.Base.{
  ℕ, String, ◌≡◌, refl, Bool, true, false, ◌⊎◌, inl, inr, Option, none, some, List, [], ◌∷◌, ◌↔◌,
  Has, ◌&&◌, is_empty, ◌==◌, All-at, contains,
}
use pgloom_engineering.Base.Json.{
  Json, boolean, string, array, object, Items, nil, cons, end, field, get, is_truthy,
}
use pgloom_engineering.Contracts.{Checked, ok, PlanContract, TaskSliceContract, MilestoneContract}
use pgloom_engineering.Workflow.Rows.{TaskContractRow}
use pgloom_engineering.Worker.Signoff.{milestone_signed_off, is_passing_row, task_by_slice}
use pgloom_engineering.Planner.Critic.{is_accept}
use pgloom_engineering.Planner.Critic.Rubric.{CheckDefinition, rubric_checks}
use pgloom_engineering.Planner.Critic.Review.{review, Printing, deterministic_accept_verdict}
use pgloom_engineering.Planner.Critic.Accepting.{review-verdict, is_acceptable}
use pgloom_engineering.Planner.Critic.Scores.{review-deterministic, review-score, Scored}
use pgloom_engineering.Planner.Critic.PlanTexts.{Dumps}
use pgloom_engineering.Planner.Critic.Checks.{CheckContext}
use pgloom_engineering.Planner.Critic.Checks.Dispatch.{run_deterministic_check}
use pgloom_engineering.Planner.Critic.Checks.Order.{accepted-authors}
use pgloom_engineering.Planner.Critic.Checks.Verified.{accepted-qa_order}
use pgloom_engineering.Planner.Critic.Checks.Signoffs.{
  accepted-milestone_signed_off, ValidatorsPassed,
}
use pgloom_engineering.Planner.Critic.Dependencies.{
  DependsOn, depends_on_transitively, search_from, slice_of,
}
use pgloom_engineering.Planner.Critic.Dependencies.Decided.{depends_on_transitively_lem}
use pgloom_engineering.Tests.Samples.{slice, author, coder, milestone, plan_with}

abbrev reviewer : TaskSliceContract
reviewer = slice "s3" "reviewer" "engineering.review" "reports" ("s2" ∷ [])

abbrev scrutiny : TaskSliceContract
scrutiny = record (slice "s4" "qa" "engineering.qa.verify.scrutiny" "tests/unit" ("s3" ∷ [])) {
  verification_commands =
      ("make" ∷ "benchmark-smoke" ∷ [])
      ∷ ("ruff" ∷ [])
      ∷ ("cargo" ∷ "build" ∷ [])
      ∷ ("cargo" ∷ "test" ∷ [])
      ∷ [];
}

abbrev usertest : TaskSliceContract
usertest = slice "s5" "qa" "engineering.qa.verify.usertest" "tests/unit" ("s4" ∷ [])

abbrev whole : MilestoneContract
whole = record (milestone "m1" ("s1" ∷ "s2" ∷ "s3" ∷ "s4" ∷ "s5" ∷ []) []) {
  validation_contract = object (field "scrutiny" (boolean true) end);
}

abbrev reviewed_plan : PlanContract
reviewed_plan = record (plan_with (whole ∷ [])) {
  task_slices = author ∷ coder ∷ reviewer ∷ scrutiny ∷ usertest ∷ [];
}

abbrev dumps : Dumps
dumps = record {
  dump_plan = λ p. p.problem_statement;
  dump_slice = λ s. s.objective;
  dump_compact_slice = λ s. s.objective;
  dump_json = λ v. "{}";
  dump_command = λ c. "make";
  is_word = λ c. true;
}

abbrev context : CheckContext
context = record {
  dumps = dumps;
  error_codes = [];
  qa_write_paths = [];
  baseline_plan = none;
  frozen_prefix_slice_ids = [];
}

abbrev printing : Printing
printing = record { str = λ v. "text"; numeral = λ n. "some" }

-- The model passes every check.
abbrev passing : List CheckDefinition → Items
passing [] = nil
passing (d ∷ ds) =
    cons (object (field "check_id" (string d.check_id) (field "passed" (boolean true) end)))
      (passing ds)

unfoldable answer : Checked Json
unfolding rubric_checks
answer = ok (object (field "per_check_results" (array (passing rubric_checks)) end))

abbrev no_errors : List String
no_errors = []

accepted :
    is_accept
      (review printing (run_deterministic_check context reviewed_plan) no_errors answer).verdict
    ≡ true
unfolding review rubric_checks get answer is_truthy run_deterministic_check
accepted = refl

review-verdict_example :
    is_accept
      (review printing (run_deterministic_check context reviewed_plan) no_errors answer).verdict
    ≡ (is_empty no_errors && is_acceptable (run_deterministic_check context reviewed_plan) answer)
review-verdict_example =
    review-verdict printing (run_deterministic_check context reviewed_plan) no_errors answer

review-deterministic_example :
    is_accept
      (deterministic_accept_verdict
        (run_deterministic_check context reviewed_plan)
        no_errors
        "model out of reach"
        true).verdict
    ≡ true
review-deterministic_example =
    review-deterministic printing (run_deterministic_check context reviewed_plan) no_errors answer
      "model out of reach" true accepted

review-score_example :
    let v = review printing (run_deterministic_check context reviewed_plan) no_errors answer in
    Scored v.verdict v.quality_report.score
review-score_example =
    review-score printing (run_deterministic_check context reviewed_plan) no_errors answer

depends_on_transitively_lem_example :
    (b : Bool) × ((search_from reviewed_plan.task_slices
          (slice_of reviewed_plan.task_slices "s5")
          "s1"
        ≡ some b)
      × ((depends_on_transitively reviewed_plan.task_slices "s5" "s1" ≡ b)
          × ((b ≡ true) ↔ DependsOn reviewed_plan.task_slices "s1" "s5")))
depends_on_transitively_lem_example =
    depends_on_transitively_lem reviewed_plan.task_slices "s5" "s1"

accepted-authors_example :
    (a : TaskSliceContract) × (Has a reviewed_plan.task_slices
      × (((a.task_type == "engineering.qa.author") ≡ true)
          × DependsOn reviewed_plan.task_slices a.slice_id "s2"))
accepted-authors_example =
    accepted-authors printing context reviewed_plan no_errors answer coder accepted (inr (inl refl))
      refl

accepted-qa_order_example : DependsOn reviewed_plan.task_slices "s4" "s5"
accepted-qa_order_example =
    accepted-qa_order printing context reviewed_plan no_errors answer scrutiny usertest accepted
      (inr (inr (inr (inl refl)))) (inr (inr (inr (inr (inl refl))))) refl

abbrev passed_row : String → String → TaskContractRow
passed_row slice_id task_type = record {
  task_id = some slice_id;
  task_slice_id = some slice_id;
  status = "completed";
  input_contract = some (record {
    task_type = task_type;
    role = "qa";
    plan_contract_id = "plan-1";
    task_slice_id = some slice_id;
    milestone_id = some "m1";
    allowed_paths = [];
    forbidden_paths = [];
    dependencies = [];
  });
  output_contract =
      some (field "qa_result_contract" (object (field "verdict" (string "pass") end)) end);
}

abbrev passed_rows : List TaskContractRow
passed_rows =
    passed_row "s4" "engineering.qa.verify.scrutiny"
    ∷ passed_row "s5" "engineering.qa.verify.usertest"
    ∷ []

validators_passed : ValidatorsPassed reviewed_plan passed_rows
unfolding task_by_slice get pgloom_engineering.Base.Json.is_text
validators_passed s m =
    All-at
      (λ (t : TaskSliceContract).
        contains ("engineering.qa.verify.scrutiny" ∷ "engineering.qa.verify.usertest" ∷ [])
            t.task_type
          ≡ true
        → is_passing_row t.task_type (task_by_slice passed_rows t.slice_id) ≡ true)
      reviewed_plan.task_slices
      ((λ h. cc h), ((λ h. cc h), ((λ h. cc h), ((λ h. refl), ((λ h. refl), tt))))) m

accepted-milestone_signed_off_example : milestone_signed_off [] passed_rows whole ≡ true
accepted-milestone_signed_off_example =
    accepted-milestone_signed_off printing context reviewed_plan no_errors answer whole []
      passed_rows accepted (inl refl) refl validators_passed
