-- ===== src/Worker/Claimed/Raised.antt =====
-- The exceptions that `run_once` of worker.py does not catch.
use pgloom_engineering.Base.{
  String, ◌≡◌, refl, ap, ◌∙◌, true, none, some, if◌then◌else◌, contains, ◌==◌, eq-of_eq, if-true,
  if-false,
}
use pgloom_engineering.Base.Json.{get}
use pgloom_engineering.Contracts.{Checked, ok, value_error}
use pgloom_engineering.Workflow.Rows.{TaskRow}
use pgloom_engineering.Worker.Gate.{Reading, pre_execution_gate}
use pgloom_engineering.Worker.Desk.{Desk, TaskRuntime}
use pgloom_engineering.Worker.Outputs.{
  HandlerResult, Validators, persist_qa_result_contract, validator_types, is_given, value_of,
  Output,
}
use pgloom_engineering.Worker.PostGate.{post_execution_gate, or_invalid, read_output}
use pgloom_engineering.Worker.Claimed.{
  Ran, ended, raised, Handler, run_claimed, execute, settle, handled, settle_validated, settle_done,
  settle_retry, settle_waiting, settle_blocked, refuse, block_stored,
}
use pgloom_engineering.Worker.Claimed.Approved.{handled_desk}

module _ (v : Validators) (runtime : TaskRuntime) (task : TaskRow) where
  persist-rejected :
      (r : HandlerResult) (status exc : String) (d : Desk)
      → is_given (get "qa_result_contract" r.result) ≡ true
      → v.qa_result (value_of (get "qa_result_contract" r.result)) ≡ value_error exc
      → persist_qa_result_contract v task r status d ≡ value_error exc
  unfolding persist_qa_result_contract
  persist-rejected r status exc d h e = rw (h, e) refl

  settle-raised :
      (r : HandlerResult) (exc : String) (d : Desk)
      → contains validator_types task.task_type ≡ true
      → (r.status == "blocked") ≡ true
      → is_given (get "qa_result_contract" r.result) ≡ true
      → v.qa_result (value_of (get "qa_result_contract" r.result)) ≡ value_error exc
      → settle v runtime task r d ≡ raised d exc
  unfolding settle settle_validated
  settle-raised r exc d t s h e =
      let not_done = ap (λ x. x == "done") (eq-of_eq r.status "blocked" s) in
      if-false (r.status == "done") (ended (settle_done v runtime task r d) r.status)
        (if r.status == "blocked"
          then settle_validated v runtime task r d
          else if r.status == "retry"
          then ended (settle_retry v runtime task r d) r.status
          else ended (settle_waiting v runtime task r d) r.status)
        not_done
      ∙ if-true (r.status == "blocked") (settle_validated v runtime task r d)
          (if r.status == "retry"
            then ended (settle_retry v runtime task r d) r.status
            else ended (settle_waiting v runtime task r d) r.status)
          s
      ∙ if-true (contains validator_types task.task_type)
          (block_stored v runtime task r d (persist_qa_result_contract v task r "blocked" d))
          (ended (settle_blocked v runtime task r d) "blocked") t
      ∙ ap (block_stored v runtime task r d) (persist-rejected r "blocked" exc d h e)

  handled-raised :
      (r : HandlerResult) (exc : String) (d : Desk)
      → contains validator_types task.task_type ≡ true
      → (r.status == "blocked") ≡ true
      → is_given (get "qa_result_contract" r.result) ≡ true
      → v.qa_result (value_of (get "qa_result_contract" r.result)) ≡ value_error exc
      → handled v runtime task d (ok r) ≡ raised d exc
  unfolding post_execution_gate
  handled-raised r exc d t s h e =
      let not_done = ap (λ x. x == "done") (eq-of_eq r.status "blocked" s) in
      let passed =
        if-false (r.status == "done") (or_invalid task d (read_output v task r d)) (d, r)
          not_done in
      ap (λ (x : Output). settle v runtime task x.1 x.0) passed ∙ settle-raised r exc d t s h e

  -- When the gate passes and the handler of a validator task blocks with a qa_result_contract
  -- that is refused, the run of the claimed task raises the error, with the desk as the handler
  -- left it.
  pub run_claimed-raised :
      (handler : Handler) (g : Reading) (d e : Desk) (r : HandlerResult) (exc : String)
      → pre_execution_gate g ≡ none
      → handled_desk v runtime task handler g d ≡ (e, ok r)
      → contains validator_types task.task_type ≡ true
      → (r.status == "blocked") ≡ true
      → is_given (get "qa_result_contract" r.result) ≡ true
      → v.qa_result (value_of (get "qa_result_contract" r.result)) ≡ value_error exc
      → run_claimed v runtime task handler g d ≡ raised e exc
  unfolding run_claimed execute
  run_claimed-raised handler g d e r exc gate handles t s h bad =
      ap
        (λ o. elim o as (λ _. Ran) [
          | some b ↦ refuse v runtime task b d
          | none ↦ execute v runtime task handler g d
        ])
        gate
      ∙ ap (λ (x : Desk × Checked HandlerResult). handled v runtime task x.0 x.1) handles
      ∙ handled-raised r exc e t s h bad
