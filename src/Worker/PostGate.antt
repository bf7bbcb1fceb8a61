-- ===== src/Worker/PostGate.antt =====
-- `_post_execution_gate` of worker.py: what becomes of the output of a handler that is done.
use pgloom_engineering.Base.{◌==◌, if◌then◌else◌, contains}
use pgloom_engineering.Base.Json.{end, field, get, is_truthy}
use pgloom_engineering.Contracts.{Checked, ok, value_error}
use pgloom_engineering.Workflow.Rows.{TaskRow, record_invalid_output}
use pgloom_engineering.Worker.Desk.{
  Desk, get_task_contract, upsert_task_contract, record_dependency_handoffs,
}
use pgloom_engineering.Worker.Outputs.{
  HandlerResult, ReviewVerdict, Validators, Output, blocked_with_recovery, store_output, keep,
  judge, value_of, persist_qa_result_contract, validator_types,
}

unfoldable pub implementer_output : Validators → TaskRow → HandlerResult → Desk → Checked Output
unfolding get is_truthy get_task_contract upsert_task_contract record_dependency_handoffs
implementer_output v task r d =
    let output = value_of (get "task_result_contract" r.result) in
    let row = get_task_contract task.id d.task_contracts in
    if is_truthy output
    then elim (v.task_result output) [
      | value_error exc ↦ value_error exc
      | ok contract ↦ keep r (store_output v task row contract "task_result" d)
    ]
    else value_error "implementer result missing task_result_contract"

abbrev pub judge_read :
    Validators → TaskRow → HandlerResult → Desk → Checked ReviewVerdict → Checked Output
judge_read v task r d (value_error exc) = value_error exc
judge_read v task r d (ok w) = judge v task r (get_task_contract task.id d.task_contracts) w d

unfoldable pub review_output : Validators → TaskRow → HandlerResult → Desk → Checked Output
unfolding get get_task_contract upsert_task_contract record_dependency_handoffs
    blocked_with_recovery
review_output v task r d =
    judge_read v task r d (v.review_verdict (get "review_verdict_contract" r.result))

unfoldable pub author_output : Validators → TaskRow → HandlerResult → Desk → Checked Output
unfolding get get_task_contract upsert_task_contract record_dependency_handoffs
author_output v task r d = elim (v.qa_author (get "qa_author_contract" r.result)) [
  | value_error exc ↦ value_error exc
  | ok dump ↦ keep r (
      store_output v task (get_task_contract task.id d.task_contracts)
        (field "qa_author_contract" dump end) "qa_author_contract" d)
]

-- The body of the `try` block.
unfoldable pub read_output : Validators → TaskRow → HandlerResult → Desk → Checked Output
unfolding implementer_output review_output author_output persist_qa_result_contract
read_output v task r d =
    if task.task_type == "engineering.implement"
    then implementer_output v task r d
    else if task.task_type == "engineering.review"
    then review_output v task r d
    else if task.task_type == "engineering.qa.author"
    then author_output v task r d
    else if contains validator_types task.task_type
    then keep r (persist_qa_result_contract v task r "completed" d)
    else ok (d, r)

abbrev pub or_invalid : TaskRow → Desk → Checked Output → Output
or_invalid task d (ok output) = output
or_invalid task d (value_error exc) =
    blocked_with_recovery task "engineering.invalid_handler_output" record_invalid_output exc d

unfoldable pub post_execution_gate : Validators → TaskRow → HandlerResult → Desk → Output
unfolding read_output blocked_with_recovery
post_execution_gate v task r d =
    if r.status == "done" then or_invalid task d (read_output v task r d) else (d, r)
