-- ===== src/Tests/Gates.antt =====
-- The theorems on the worker's gates at the sample plan.
use pgloom_engineering.Base.{
  ◌⊎◌, String, is_nonempty, ◌≡◌, refl, ◌≢◌, ◌↔◌, inl, true, false, none, some, List, [], ◌∷◌, All,
}
use pgloom_engineering.Contracts.{MilestoneContract, scrutiny_only}
use pgloom_engineering.Workflow.Rows.{InputContract, TaskContractRow}
use pgloom_engineering.Base.Json.{Fields, field, end, object, string, get, is_text}
use pgloom_engineering.Worker.Signoff.Evidence.{HasPass, SignedBy, milestone_signed_off_iff}
use pgloom_engineering.Worker.Signoff.Passing.{PassedBy}
use pgloom_engineering.Worker.Signoff.{milestone_signed_off, QaSignoff, milestone_blocker}
use pgloom_engineering.Worker.Signoff.Locks.{
  IsOpen, milestone_blocker-IsOpen_iff, self_dependency_locks,
}
use pgloom_engineering.Worker.Gate.{Reading, Project}
use pgloom_engineering.Worker.Gate.Open.{MayRun, HasProject, pre_execution_gate-open}
use pgloom_engineering.Tests.Samples.{milestone, plan_with, plan}

abbrev pub contract : InputContract
contract = record {
  task_type = "engineering.implement";
  role = "implementer";
  plan_contract_id = "plan-1";
  task_slice_id = some "s2";
  milestone_id = some "m2";
  allowed_paths = "core" ∷ [];
  forbidden_paths = [];
  dependencies = [];
}

abbrev signoffs : List QaSignoff
signoffs =
    record { milestone_id = "m1"; validator_type = "scrutiny"; verdict = "pass" }
    ∷ record { milestone_id = "m1"; validator_type = "usertest"; verdict = "pass" }
    ∷ []

abbrev first_milestone : MilestoneContract
first_milestone = milestone "m1" ("s1" ∷ []) []

abbrev second_milestone : MilestoneContract
second_milestone = milestone "m2" ("s2" ∷ []) ("m1" ∷ [])

abbrev looped_milestone : MilestoneContract
looped_milestone = milestone "m2" ("s2" ∷ []) ("m2" ∷ [])

milestone_blocker-IsOpen_iff_example :
    (milestone_blocker signoffs [] plan contract ≡ none)
    ↔ All (IsOpen signoffs [] plan.milestones) second_milestone.depends_on
milestone_blocker-IsOpen_iff_example =
    milestone_blocker-IsOpen_iff signoffs [] plan contract second_milestone refl refl

self_dependency_locks_example :
    milestone_blocker signoffs [] (plan_with (looped_milestone ∷ [])) contract ≢ none
unfolding milestone_blocker
self_dependency_locks_example =
    self_dependency_locks signoffs [] (plan_with (looped_milestone ∷ [])) contract looped_milestone
      refl refl (inl refl) refl

abbrev passing_output : Fields
passing_output = field "qa_result_contract" (object (field "verdict" (string "pass") end)) end

-- The row of a validator of the slice that ended with a pass.
abbrev validator_row : String → String → TaskContractRow
validator_row slice_id task_type = record {
  task_id = some slice_id;
  task_slice_id = some slice_id;
  status = "completed";
  input_contract = some (record contract { task_type = task_type; task_slice_id = some slice_id });
  output_contract = some passing_output;
}

abbrev validator_rows : List TaskContractRow
validator_rows =
    validator_row "v1" "engineering.qa.verify.scrutiny"
    ∷ validator_row "v2" "engineering.qa.verify.usertest"
    ∷ []

abbrev verified_milestone : MilestoneContract
verified_milestone = milestone "m1" ("v1" ∷ "v2" ∷ []) []

verified_by_rows : milestone_signed_off [] validator_rows verified_milestone ≡ true
unfolding milestone_signed_off get is_text
verified_by_rows = refl

milestone_signed_off_iff_example :
    (milestone_signed_off [] validator_rows verified_milestone ≡ true) ↔ (
      (HasPass [] verified_milestone
        × (SignedBy [] verified_milestone "scrutiny"
            × ((verified_milestone.signoff_policy ≡ scrutiny_only)
                ⊎ SignedBy [] verified_milestone "usertest")))
      ⊎ ((HasPass [] verified_milestone → ⊥)
          × (PassedBy validator_rows verified_milestone "engineering.qa.verify.scrutiny"
              × ((verified_milestone.signoff_policy ≡ scrutiny_only)
                  ⊎ PassedBy validator_rows verified_milestone "engineering.qa.verify.usertest"))))
milestone_signed_off_iff_example = milestone_signed_off_iff [] validator_rows verified_milestone

abbrev pub reading : Reading
reading = record {
  task_type = "engineering.implement";
  project_name = "demo";
  project = some (record {
    state = "active";
    gate = record { project = "demo"; role = "implementer"; status = "enabled"; reason = "on" };
  });
  allow_unregistered_project = false;
  paused = false;
  task_contract = some ("plan-1", contract, none);
  active_plan = some ("plan-1", plan);
  signoffs = signoffs;
  rows = [];
  lock_free = true;
  handoff_types = [];
}

pre_execution_gate-open_example :
    (is_nonempty reading.project_name ≡ true)
    × HasProject reading
    × (reading.paused ≡ false)
    × MayRun reading
unfolding milestone_blocker pgloom_engineering.Worker.Gate.pre_execution_gate
pre_execution_gate-open_example = pre_execution_gate-open reading refl refl
