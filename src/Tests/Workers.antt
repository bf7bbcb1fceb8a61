-- ===== src/Tests/Workers.antt =====
-- Claimed tasks whose handlers approve a review, or block with a result that is not valid, and the
-- theorems of worker.py applied to them.
use pgloom_engineering.Base.{String, ◌≡◌, refl, Option, none, some, [], ◌∷◌, inl}
use pgloom_engineering.Base.Json.{Json, string, Fields, end, field, get}
use pgloom_engineering.Contracts.{Checked, ok, value_error}
use pgloom_engineering.Workflow.Rows.{queued, leased, running, TaskRow, TaskContractRow}
use pgloom_engineering.Worker.Gate.{Reading, pre_execution_gate}
use pgloom_engineering.Worker.Desk.{Desk, TaskRuntime, with_task}
use pgloom_engineering.Worker.Outputs.{HandlerResult, Validators, ReviewVerdict}
use pgloom_engineering.Worker.Claimed.{Settles, Ran, ended, raised, Handler, run_claimed}
use pgloom_engineering.Worker.Claimed.Settled.{Settled, run_claimed-Settled}
use pgloom_engineering.Worker.Claimed.Approved.{Approved, handled_desk, run_claimed-Approved}
use pgloom_engineering.Worker.Claimed.Raised.{run_claimed-raised}
use pgloom_engineering.Tests.Samples.{task}
use pgloom_engineering.Tests.Gates.{reading, contract}

abbrev runtime : TaskRuntime
runtime = record {
  transition_task = λ state code reason result t. record t {
    state = state;
    blocker_code = code;
    blocker_reason = reason;
    result = result;
  };
  retry_or_fail_task = λ reason t. record t { state = queued };
  policy_attempts = λ payload. 3;
}

runtime-Settles : Settles runtime
runtime-Settles = record {
  transition = λ state code reason result t. refl;
  retry = λ reason t. inl refl;
}

-- A verdict is a text.
abbrev verdict_in : Option Json → Checked ReviewVerdict
verdict_in (some (string verdict)) =
    ok (record { verdict = verdict; dump = string verdict; rejection = "rejected" })
verdict_in _ = value_error "no verdict"

abbrev validators : Validators
validators = record {
  task_result = λ v. ok end;
  review_verdict = verdict_in;
  qa_author = λ v. value_error "no contract";
  qa_result = λ v. value_error "no verdict";
  contract_error = λ row. "no contract";
}

abbrev review_task : TaskRow
review_task = task "t4" "engineering.review" "reviewer" leased

abbrev scrutiny_task : TaskRow
scrutiny_task = task "t5" "engineering.qa.verify.scrutiny" "qa" leased

abbrev contract_row : TaskContractRow
contract_row = record {
  task_id = some "t4";
  task_slice_id = some "s3";
  status = "active";
  input_contract = some contract;
  output_contract = none;
}

abbrev desk_of : TaskRow → Desk
desk_of t = record {
  task = t;
  task_contracts = contract_row ∷ [];
  handoffs = [];
  signoffs = [];
  recovery_actions = [];
  resource_locks = [];
  run = record {
    id = 1;
    task_id = t.id;
    status = "running";
    started_at = 5;
    blocker_code = none;
    terminal_reason = none;
    terminal_detail = none;
  };
}

abbrev handler_result : String → Fields → HandlerResult
handler_result status result = record {
  status = status;
  result = result;
  blocker_code = none;
  blocker_reason = none;
  message = none;
}

abbrev approving : Handler
approving d =
    (d, ok (handler_result "done" (field "review_verdict_contract" (string "approve") end)))

abbrev malformed_result : HandlerResult
malformed_result = handler_result "blocked" (field "qa_result_contract" (string "unreadable") end)

abbrev malformed : Handler
malformed d = (d, ok malformed_result)

abbrev review_reading : Reading
review_reading = record reading {
  task_type = "engineering.review";
  handoff_types = "task_result" ∷ [];
}

abbrev scrutiny_reading : Reading
scrutiny_reading = record reading { task_type = "engineering.qa.verify.scrutiny" }

run_claimed-Settled_example :
    Settled review_task
      (run_claimed validators runtime review_task approving review_reading (desk_of review_task))
run_claimed-Settled_example =
    run_claimed-Settled validators runtime runtime-Settles review_task approving review_reading
      (desk_of review_task) refl

-- The desk at the end of the approved review.
abbrev desk_in : Ran → Desk
desk_in (ended d status) = d
desk_in (raised d exc) = d

run_claimed-Approved_example :
    (r : HandlerResult) × (((handled_desk validators runtime review_task approving review_reading
          (desk_of review_task)).1
        ≡ ok r)
      × Approved validators review_task
          (handled_desk validators runtime review_task approving review_reading
            (desk_of review_task)).0
          r)
unfolding run_claimed
run_claimed-Approved_example =
    run_claimed-Approved validators runtime review_task approving review_reading
      (desk_of review_task)
      (desk_in
        (run_claimed validators runtime review_task approving review_reading (desk_of review_task)))
      refl refl

run_claimed-raised_example :
    run_claimed validators runtime scrutiny_task malformed scrutiny_reading (desk_of scrutiny_task)
    ≡ raised
        (with_task (runtime.transition_task running none none none) (desk_of scrutiny_task))
        "no verdict"
unfolding pre_execution_gate get
run_claimed-raised_example =
    run_claimed-raised validators runtime scrutiny_task malformed scrutiny_reading
      (desk_of scrutiny_task)
      (with_task (runtime.transition_task running none none none) (desk_of scrutiny_task))
      malformed_result "no verdict" refl refl refl refl refl refl
