-- ===== src/Worker/Outputs.antt =====
-- The results of handlers in worker.py, and what is stored of them: outputs, verdicts, sign-offs and
-- `_persist_qa_result_contract`. The validators of the output models are parameters; ids of handoffs
-- that are copied into the result are left out.
use pgloom_engineering.Base.{
  String, ◌==◌, Bool, true, false, ◌&&◌, Option, none, some, List, [], ◌∷◌, if◌then◌else◌, or_empty,
  is_nonempty,
}
use pgloom_engineering.Base.Json.{Json, Fields, null, object, string, end, field, get}
use pgloom_engineering.Contracts.{Checked, ok, value_error}
use pgloom_engineering.Workflow.Rows.{
  TaskRow, TaskContractRow, InputContract, Action, retry, replan, repair_task, pr_feedback_task,
  rerun_verifier, retire_superseded, corrective_slice, milestone_replan, block_execution,
  record_invalid_output, record_crash, human_escalation,
}
use pgloom_engineering.Worker.Desk.{
  Desk, SignoffRow, get_task_contract, upsert_task_contract, record_dependency_handoffs,
  record_qa_signoff, record_recovery,
}

pub record HandlerResult : Type 0 where
  pub status : String
  pub result : Fields
  pub blocker_code : Option String
  pub blocker_reason : Option String
  pub message : Option String

pub record ReviewVerdict : Type 0 where
  pub verdict : String
  pub dump : Json
  -- `_review_rejection_rationale`
  pub rejection : String

pub record QaResult : Type 0 where
  pub verdict : String
  pub validator_type : Option String
  pub dump : Json

-- `model_validate` of the output models and of a stored task contract, whose error is a message.
pub record Validators : Type 0 where
  pub task_result : Json → Checked Fields
  pub review_verdict : Option Json → Checked ReviewVerdict
  pub qa_author : Option Json → Checked Json
  pub qa_result : Json → Checked QaResult
  pub contract_error : TaskContractRow → String

-- The texts of the actions in `RecoveryDecisionContract`
abbrev pub action_name : Action → String
action_name retry = "retry"
action_name replan = "replan"
action_name repair_task = "repair_task"
action_name pr_feedback_task = "pr_feedback_task"
action_name rerun_verifier = "rerun_verifier"
action_name retire_superseded = "retire_superseded"
action_name corrective_slice = "corrective_slice"
action_name milestone_replan = "milestone_replan"
action_name block_execution = "block_execution"
action_name record_invalid_output = "record_invalid_output"
action_name record_crash = "record_crash"
action_name human_escalation = "human_escalation"

-- A write to the desk together with what the worker goes on with.
abbrev pub Output : Type 0
Output = Desk × HandlerResult

-- `_blocked_with_recovery`
unfoldable pub blocked_with_recovery : TaskRow → String → Action → String → Desk → Output
unfolding record_recovery
blocked_with_recovery task blocker_code action rationale d = (
  record_recovery task blocker_code action rationale "" d,
  record {
    status = "blocked";
    result =
        field "recovery"
          (object (
            field "blocker_code" (string blocker_code)
              (field "action" (string (action_name action)) end)))
          end;
    blocker_code = some blocker_code;
    blocker_reason = some rationale;
    message = none;
  },
)

abbrev pub complete : TaskRow → Fields → String → String → Desk → Desk
complete task output status handoff_type d =
    record_dependency_handoffs task.id handoff_type output
      (upsert_task_contract task.id output status d)

-- The task contract of a row, or the error of its validation.
abbrev pub input_contract_of : Validators → TaskContractRow → Checked InputContract
input_contract_of v row = elim row.input_contract [
  | none ↦ value_error (v.contract_error row)
  | some c ↦ ok c
]

-- The desk after the output is written, unless the task has no contract.
abbrev pub store_output :
    Validators → TaskRow → Option TaskContractRow → Fields → String → Desk → Checked Desk
store_output v task none output handoff_type d = ok d
store_output v task (some row) output handoff_type d = elim (input_contract_of v row) [
  | value_error exc ↦ value_error exc
  | ok c ↦ ok (complete task output "completed" handoff_type d)
]

-- With the same result, where the desk is written.
abbrev pub keep : HandlerResult → Checked Desk → Checked Output
keep r (ok d) = ok (d, r)
keep r (value_error exc) = value_error exc

abbrev pub review_fields : ReviewVerdict → Fields
review_fields w = field "review_verdict_contract" w.dump end

-- Once the output is stored, a verdict that is not to approve blocks the task.
abbrev pub judged : TaskRow → HandlerResult → ReviewVerdict → Checked Desk → Checked Output
judged task r w (value_error exc) = value_error exc
judged task r w (ok e) =
    if w.verdict == "approve"
    then ok (e, r)
    else ok
        (blocked_with_recovery task "engineering.review_rejected" corrective_slice w.rejection e)

-- A review of a task without a contract is not looked at.
abbrev pub judge :
    Validators
    → TaskRow
    → HandlerResult
    → Option TaskContractRow
    → ReviewVerdict
    → Desk
    → Checked Output
judge v task r none w d = ok (d, r)
judge v task r (some row) w d =
    judged task r w (store_output v task (some row) (review_fields w) "review" d)

abbrev pub signoff_when : Bool → SignoffRow → Desk → Desk
signoff_when test row d = if test then record_qa_signoff row d else d

abbrev pub milestone_of : InputContract → Option String
milestone_of c = elim c.milestone_id [
  | none ↦ none
  | some m ↦ if is_nonempty m then some m else none
]

-- The result of a validator is stored; a pass that is completed signs the milestone off.
abbrev pub store_qa_result :
    Validators → TaskRow → Option TaskContractRow → String → QaResult → Desk → Checked Desk
store_qa_result v task none status q d = ok d
store_qa_result v task (some row) status q d = elim (input_contract_of v row) [
  | value_error exc ↦ value_error exc
  | ok c ↦ ok (
      signoff_when (status == "completed" && q.verdict == "pass")
        (record {
          task_id = task.id;
          milestone_id = milestone_of c;
          validator_type = or_empty q.validator_type;
          verdict = q.verdict;
        })
        (complete task (field "qa_result_contract" q.dump end) status "validation" d))
]

abbrev pub is_given : Option Json → Bool
is_given none = false
is_given (some null) = false
is_given (some v) = true

abbrev pub value_of : Option Json → Json
value_of none = null
value_of (some v) = v

-- A result without a `qa_result_contract` is no error, and stores nothing.
unfoldable pub persist_qa_result_contract :
    Validators → TaskRow → HandlerResult → String → Desk → Checked Desk
unfolding get get_task_contract upsert_task_contract record_dependency_handoffs record_qa_signoff
persist_qa_result_contract v task r status d =
    let payload = get "qa_result_contract" r.result in
    if is_given payload
    then elim (v.qa_result (value_of payload)) [
      | value_error exc ↦ value_error exc
      | ok q ↦ store_qa_result v task (get_task_contract task.id d.task_contracts) status q d
    ]
    else ok d

abbrev pub validator_types : List String
validator_types = "engineering.qa.verify.scrutiny" ∷ "engineering.qa.verify.usertest" ∷ []
