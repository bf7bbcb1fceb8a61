-- ===== src/Worker/Claimed/Approved.antt =====
-- The review tasks that worker.py ends as done.
use pgloom_engineering.Base.{
  String, ◌≡◌, refl, sym, ap, ◌∙◌, subst, ◌⊎◌, inl, inr, Bool, true, false, ◌&&◌, Option, none,
  some, if◌then◌else◌, contains, ltb, ◌==◌, eq-of_eq, if-split, if-either, Bool-cases,
}
use pgloom_engineering.Base.Json.{get}
use pgloom_engineering.Contracts.{Checked, ok, value_error}
use pgloom_engineering.Workflow.Rows.{TaskRow, TaskContractRow, running, or_one}
use pgloom_engineering.Worker.Gate.{Reading, Block, pre_execution_gate}
use pgloom_engineering.Worker.Desk.{Desk, TaskRuntime, with_task, get_task_contract}
use pgloom_engineering.Worker.Outputs.{
  HandlerResult, Validators, ReviewVerdict, keep, judge, judged, blocked_with_recovery,
  store_output, review_fields, persist_qa_result_contract, validator_types,
}
use pgloom_engineering.Worker.PostGate.{
  post_execution_gate, read_output, review_output, implementer_output, author_output, judge_read,
  or_invalid,
}
use pgloom_engineering.Worker.Claimed.{
  Ran, ended, raised, Handler, run_claimed, refuse, execute, crash_claimed, settle, handled, locked,
  retry_or_block_worker_crash, settle_validated, block_stored,
}

-- The run reports `done`.
abbrev is_done_run : Ran → Bool
is_done_run (ended d status) = status == "done"
is_done_run (raised d exc) = false

-- The review that the handler gave is one to approve, or the task has no contract.
abbrev pub Approved : Validators → TaskRow → Desk → HandlerResult → Type 0
Approved v task d r =
    (w : ReviewVerdict) × ((v.review_verdict (get "review_verdict_contract" r.result) ≡ ok w)
      × (((w.verdict == "approve") ≡ true) ⊎ (get_task_contract task.id d.task_contracts ≡ none)))

module _ (v : Validators) (runtime : TaskRuntime) (task : TaskRow) where
  crash_claimed-is_done :
      (exc : String) (d : Desk) → is_done_run (crash_claimed v runtime task exc d) ≡ false
  unfolding crash_claimed retry_or_block_worker_crash
  crash_claimed-is_done exc d =
      if-either (λ (x : Desk × String). (x.1 == "done") ≡ false)
        (ltb (or_one task.attempt) (or_one task.max_attempts)
          && ltb (or_one task.attempt) (runtime.policy_attempts task.payload))
        refl refl

  block_stored-is_done :
      (r : HandlerResult) (d : Desk) (o : Checked Desk)
      → is_done_run (block_stored v runtime task r d o) ≡ false
  block_stored-is_done r d (ok e) = refl
  block_stored-is_done r d (value_error exc) = refl

  settle_validated-is_done :
      (r : HandlerResult) (d : Desk) → is_done_run (settle_validated v runtime task r d) ≡ false
  unfolding settle_validated
  settle_validated-is_done r d =
      if-either (λ x. is_done_run x ≡ false) (contains validator_types task.task_type)
        (block_stored-is_done r d (persist_qa_result_contract v task r "blocked" d)) refl

  settle-is_done :
      (r : HandlerResult) (d : Desk)
      → is_done_run (settle v runtime task r d) ≡ (r.status == "done")
  unfolding settle
  settle-is_done r d =
      let Same = λ (x : Ran). is_done_run x ≡ (r.status == "done") in
      if-split Same (r.status == "done") (λ h. refl)
        (λ h.
          if-split Same (r.status == "blocked") (λ k. settle_validated-is_done r d ∙ sym h)
            (λ k. if-either Same (r.status == "retry") refl refl))

  judged-is_done :
      (d : Desk) (r : HandlerResult) (w : ReviewVerdict) (c : Checked Desk)
      → (w.verdict == "approve") ≡ false
      → ((or_invalid task d (judged task r w c)).1.status == "done") ≡ false
  unfolding blocked_with_recovery
  judged-is_done d r w (value_error exc) other = refl
  judged-is_done d r w (ok e) other = rw (other) refl

  judge-Approved :
      (d : Desk) (r : HandlerResult) (w : ReviewVerdict)
      → v.review_verdict (get "review_verdict_contract" r.result) ≡ ok w
      → (o : Option TaskContractRow) → get_task_contract task.id d.task_contracts ≡ o
      → ((or_invalid task d (judge v task r o w d)).1.status == "done") ≡ true
      → Approved v task d r
  judge-Approved d r w e none found h = (w, (e, inr found))
  judge-Approved d r w e (some row) found h = elim (Bool-cases (w.verdict == "approve")) [
    | inl approves ↦ (w, (e, inl approves))
    | inr other ↦ cc (
      h,
      judged-is_done d r w (store_output v task (some row) (review_fields w) "review" d) other,
    )
  ]

  read-Approved :
      (d : Desk) (r : HandlerResult) (c : Checked ReviewVerdict)
      → v.review_verdict (get "review_verdict_contract" r.result) ≡ c
      → ((or_invalid task d (judge_read v task r d c)).1.status == "done") ≡ true
      → Approved v task d r
  unfolding blocked_with_recovery
  read-Approved d r (value_error exc) e h = cc h
  read-Approved d r (ok w) e h =
      judge-Approved d r w e (get_task_contract task.id d.task_contracts) refl h

  read_output-review :
      (d : Desk) (r : HandlerResult)
      → (task.task_type == "engineering.review") ≡ true
      → read_output v task r d ≡ review_output v task r d
  unfolding read_output
  read_output-review d r review =
      ap
        (λ t.
          if t == "engineering.implement"
          then implementer_output v task r d
          else if t == "engineering.review"
          then review_output v task r d
          else if t == "engineering.qa.author"
          then author_output v task r d
          else if contains validator_types t
          then keep r (persist_qa_result_contract v task r "completed" d)
          else ok (d, r))
        (eq-of_eq task.task_type "engineering.review" review)

  -- A review that the gate behind the handler lets through.
  post-Approved :
      (d : Desk) (r : HandlerResult)
      → (task.task_type == "engineering.review") ≡ true
      → ((post_execution_gate v task r d).1.status == "done") ≡ true
      → Approved v task d r
  unfolding post_execution_gate review_output
  post-Approved d r review h = elim (Bool-cases (r.status == "done")) [
    | inl ended_well ↦
        read-Approved d r (v.review_verdict (get "review_verdict_contract" r.result)) refl (
          subst (λ o. ((or_invalid task d o).1.status == "done") ≡ true)
            (read_output-review d r review)
            (subst
              (λ b.
                ((if b then or_invalid task d (read_output v task r d) else (d, r)).1.status
                  == "done")
                ≡ true)
              ended_well h))
    | inr other ↦ cc (
      other,
      subst
          (λ b.
            ((if b then or_invalid task d (read_output v task r d) else (d, r)).1.status == "done")
            ≡ true)
          other h,
    )
  ]

  handled-Approved :
      (d : Desk) (o : Checked HandlerResult)
      → (task.task_type == "engineering.review") ≡ true
      → is_done_run (handled v runtime task d o) ≡ true
      → (r : HandlerResult) × ((o ≡ ok r) × Approved v task d r)
  handled-Approved d (value_error exc) review h = cc (h, crash_claimed-is_done exc d)
  handled-Approved d (ok r) review h =
      let (e, checked) = post_execution_gate v task r d in
      (r, (refl, post-Approved d r review (sym (settle-is_done checked e) ∙ h)))

  -- How the handler left the desk, and what it returned.
  abbrev pub handled_desk : Handler → Reading → Desk → Desk × Checked HandlerResult
  handled_desk handler g d =
      handler
        (with_task (runtime.transition_task running none none none) (locked v runtime task g d))

  executed-Approved :
      (handler : Handler) (g : Reading) (d : Desk) (o : Option Block)
      → (task.task_type == "engineering.review") ≡ true
      → is_done_run (elim o as (λ _. Ran) [
        | some b ↦ refuse v runtime task b d
        | none ↦ execute v runtime task handler g d
      ])
        ≡ true
      → (r : HandlerResult) × (((handled_desk handler g d).1 ≡ ok r)
          × Approved v task (handled_desk handler g d).0 r)
  unfolding refuse execute
  executed-Approved handler g d (some b) review h = cc h
  executed-Approved handler g d none review h =
      handled-Approved (handled_desk handler g d).0 (handled_desk handler g d).1 review h

  -- When the run of a claimed review task reports done, the handler returned a result with a
  -- valid review verdict, and the verdict is to approve unless the task has no contract.
  pub run_claimed-Approved :
      (handler : Handler) (g : Reading) (d e : Desk)
      → (task.task_type == "engineering.review") ≡ true
      → run_claimed v runtime task handler g d ≡ ended e "done"
      → (r : HandlerResult) × (((handled_desk handler g d).1 ≡ ok r)
          × Approved v task (handled_desk handler g d).0 r)
  unfolding run_claimed
  run_claimed-Approved handler g d e review h =
      executed-Approved handler g d (pre_execution_gate g) review (ap is_done_run h)
