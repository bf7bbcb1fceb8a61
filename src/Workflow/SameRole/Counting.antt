-- ===== src/Workflow/SameRole/Counting.antt =====
-- Which repairs count towards the limit on the recoveries of the blocked task.
use pgloom_engineering.Base.{
  ℕ, ◌+◌, String, ◌<>◌, ◌==◌, ◌≡◌, ◌⊎◌, refl, ap, ◌∙◌, subst, Bool, true, false, not, ◌||◌, List,
  [], ◌∷◌, ◌++◌, Option, arith, contains, Bool-cases, inl, inr, if◌then◌else◌, some, none,
  if-either, or_empty, length, length-append, filter, leb, is_nonempty, eq_refl, eq_iff,
}
use pgloom_engineering.Settings.{Settings}
use pgloom_engineering.Workflow.Texts.{Texts, repair_task_type}
use pgloom_engineering.Workflow.Rows.{
  TaskRow, Store, Candidate, Report, RecoveryAction, repair_task, RepairContext, is_terminal,
}
use pgloom_engineering.Workflow.Recovery.{
  latest_task_by_type, recovery_attempt, counts_for, completed_recovery_count,
}
use pgloom_engineering.Workflow.Effects.{
  Runtime, update_tasks, abandon_row, requeue, record_recovery_action, abandon_nonterminal_tasks,
}
use pgloom_engineering.Workflow.Repair.{
  Step, context_of, requeue_review_target_repair, requeue_validation_failure_owner_repair, route_to,
  repair_action,
}
use pgloom_engineering.Workflow.SameRole.{
  first_nonempty, same_role_repair_context, requeue_same_role_repair,
}

filter-append :
    {A : Type 0} (p : A → Bool) (xs ys : List A) → filter p (xs ++ ys) ≡ filter p xs ++ filter p ys
filter-append p [] ys = refl
filter-append p (x ∷ xs) ys = elim (Bool-cases (p x)) [
  | inl kept ↦ rw (kept) (ap (◌∷◌ x) (filter-append p xs ys))
  | inr dropped ↦ rw (dropped) (filter-append p xs ys)
]

module _ (runtime : Runtime) where
  abandon-recovery_actions :
      (aggregate : List TaskRow) (exclude : List String) (s : Store)
      → (abandon_nonterminal_tasks runtime aggregate exclude s).recovery_actions
        ≡ s.recovery_actions
  unfolding abandon_nonterminal_tasks update_tasks
  abandon-recovery_actions [] exclude s = refl
  abandon-recovery_actions (t ∷ aggregate) exclude s =
      abandon-recovery_actions aggregate exclude _
      ∙ if-either (λ (v : Store). v.recovery_actions ≡ s.recovery_actions)
          (contains exclude t.id || is_terminal t.state) {x = s}
          {y = update_tasks (λ u. u.id == t.id) (abandon_row runtime s.now) s} refl refl

-- The count after one more entry of the log.
abbrev pub one_if : Bool → ℕ
one_if true = 1
one_if false = 0

count-snoc :
    (s s' : Store) (code id : String) (a : RecoveryAction)
    → s'.recovery_actions ≡ s.recovery_actions ++ a ∷ []
    → (code == "") ≡ false
    → completed_recovery_count s' code id
      ≡ completed_recovery_count s code id + one_if (counts_for code id a)
unfolding completed_recovery_count
count-snoc s s' code id a logged named =
    rw (named, logged, filter-append (counts_for code id) s.recovery_actions (a ∷ []))
      (length-append (filter (counts_for code id) s.recovery_actions)
          (filter (counts_for code id) (a ∷ []))
        ∙ ap (λ n. length (filter (counts_for code id) s.recovery_actions) + n)
            (one (counts_for code id a)))
  where
    one : (b : Bool) → length (if b then a ∷ [] else []) ≡ one_if b
    one true = refl
    one false = refl

eq_false_sym : (a b : String) → contains (b ∷ []) a ≡ false → (b == a) ≡ false
eq_false_sym a b h = ground (arith, eq_iff a b, eq_iff b a)

-- An entry for another task does not count.
counts_for-other :
    (code id : String) (a : RecoveryAction)
    → (or_empty a.task_id == id) ≡ false
    → counts_for code id a ≡ false
unfolding counts_for
counts_for-other code id a other = rw (other)

counts_for-own :
    (code id : String) (a : RecoveryAction)
    → a.task_id ≡ some id
    → a.blocker_code ≡ code
    → a.action ≡ repair_task
    → a.status ≡ "completed"
    → counts_for code id a ≡ true
unfolding counts_for
counts_for-own code id a e f g h = rw (e, f, g, h) (ground (arith, eq_refl id, eq_refl code))

module _ (texts : Texts) (runtime : Runtime) (settings : Settings) (candidate : Candidate)
    (s : Store) where
  abbrev pub count_in : Store → String → ℕ
  count_in u code = completed_recovery_count u code candidate.task.id

  abbrev pub Uncounted : String → Step → Type 0
  Uncounted code none = Unit
  Uncounted code (some done) =
      contains done.1.task_ids candidate.task.id ≡ false → count_in done.0 code ≡ count_in s code

  route_to-Uncounted :
      (code : String) (target : TaskRow) (task_type blocker_code : String) (context : RepairContext)
      (outcome : String)
      → (code == "") ≡ false
      → Uncounted code (
          route_to texts runtime settings candidate target task_type blocker_code context outcome s)
  unfolding route_to requeue record_recovery_action update_tasks repair_action
  route_to-Uncounted code target task_type blocker_code context outcome named =
      let attempt = recovery_attempt (some candidate.recovery_attempt) candidate.task s in
      if-either (Uncounted code)
        (not (is_nonempty target.id) || not (is_nonempty (or_empty target.slot))) tt
        (if-either (Uncounted code) (leb settings.workflow_replan_after_blocked_attempts attempt) tt
          (λ elsewhere.
            count-snoc s _ code candidate.task.id
              (repair_action target.id blocker_code context.summary attempt
                settings.workflow_replan_after_blocked_attempts outcome)
              (abandon-recovery_actions runtime s.tasks (target.id ∷ []) _) named
            ∙ rw
                (counts_for-other code candidate.task.id
                  (repair_action target.id blocker_code context.summary attempt
                    settings.workflow_replan_after_blocked_attempts outcome)
                  (eq_false_sym candidate.task.id target.id elsewhere))
                (omega arith)))

  at_target :
      (code : String) (f : TaskRow → Step) (o : Option TaskRow)
      → ((t : TaskRow) → Uncounted code (f t))
      → Uncounted code (elim o as (λ _. Step) [ none ↦ none | some t ↦ f t ])
  at_target code f none h = tt
  at_target code f (some t) h = h t

  review-Uncounted :
      (code : String)
      → (code == "") ≡ false
      → Uncounted code (requeue_review_target_repair texts runtime settings candidate s)
  unfolding requeue_review_target_repair
  review-Uncounted code named =
      let t = candidate.task in
      let review_context = context_of texts runtime settings t in
      let target_task_type = repair_task_type review_context in
      if-either (Uncounted code) (not (or_empty t.blocker_code == "engineering.review_rejected")) tt
        (at_target code _ (latest_task_by_type s target_task_type)
          (λ target. route_to-Uncounted code target _ _ _ _ named))

  validation-Uncounted :
      (code : String)
      → (code == "") ≡ false
      → Uncounted code (requeue_validation_failure_owner_repair texts runtime settings candidate s)
  unfolding requeue_validation_failure_owner_repair
  validation-Uncounted code named =
      let t = candidate.task in
      let failure_context = context_of texts runtime settings t in
      let target_task_type = repair_task_type failure_context in
      if-either (Uncounted code)
        (not (
          or_empty t.blocker_code == "engineering.qa_verify_failed"
          || or_empty t.blocker_code == "engineering.qa_usertest_failed"))
        tt
        (at_target code _ (latest_task_by_type s target_task_type)
          (λ target. route_to-Uncounted code target _ _ _ _ named))

  abbrev pub Counted : Step → Type 0
  Counted none = Unit
  Counted (some done) =
      count_in done.0 (or_empty candidate.task.blocker_code)
      ≡ count_in s (or_empty candidate.task.blocker_code) + 1

  same_role-Counted :
      (or_empty candidate.task.blocker_code == "") ≡ false
      → Counted (requeue_same_role_repair texts runtime settings candidate s)
  unfolding requeue_same_role_repair repair_action requeue update_tasks record_recovery_action
  same_role-Counted named =
      let t = candidate.task in
      let code = or_empty t.blocker_code in
      let attempt = recovery_attempt (some candidate.recovery_attempt) t s in
      let action =
        repair_action t.id code
          (first_nonempty (same_role_repair_context texts runtime settings t s).summary
            "Requeue blocked task for same-role repair.")
          attempt settings.workflow_replan_after_blocked_attempts
          ("requeued same-role repair task " <> t.id) in
      if-either Counted (not (contains settings.workflow_same_role_repair_blocker_codes code)) tt (
        if-either Counted
          (not (is_nonempty t.id)
            || not (is_nonempty t.task_type)
            || not (is_nonempty (or_empty t.slot)))
          tt
          (if-either Counted (not (is_nonempty (texts.failure_context t))) tt (
            if-either Counted (leb settings.workflow_replan_after_blocked_attempts attempt) tt (
              count-snoc s _ code t.id action refl named
              ∙ rw (counts_for-own code t.id action refl refl refl refl) refl))))

  -- If a blocked task's failure is routed to another task, by the rule for review rejections or by
  -- the rule for failed validations, then the count of finished recoveries of the blocked task is,
  -- for each blocker code that is not empty, what it was before.
  pub routed_repair-uncounted :
      (s' : Store) (report : Report) (code : String)
      → (code == "") ≡ false
      → contains report.task_ids candidate.task.id ≡ false
      → (requeue_review_target_repair texts runtime settings candidate s ≡ some (s', report))
        ⊎ (requeue_validation_failure_owner_repair texts runtime settings candidate s
            ≡ some (s', report))
      → completed_recovery_count s' code candidate.task.id
        ≡ completed_recovery_count s code candidate.task.id
  routed_repair-uncounted s' report code named elsewhere (inl h) =
      subst (Uncounted code) h (review-Uncounted code named) elsewhere
  routed_repair-uncounted s' report code named elsewhere (inr h) =
      subst (Uncounted code) h (validation-Uncounted code named) elsewhere

  -- If a blocked task with a blocker code goes back into the queue for a repair by its own role, then
  -- the count of its finished recoveries from that blocker is one more than before.
  pub requeue_same_role_repair-counted :
      (s' : Store) (report : Report)
      → (or_empty candidate.task.blocker_code == "") ≡ false
      → requeue_same_role_repair texts runtime settings candidate s ≡ some (s', report)
      → completed_recovery_count s' (or_empty candidate.task.blocker_code) candidate.task.id
        ≡ completed_recovery_count s (or_empty candidate.task.blocker_code) candidate.task.id + 1
  requeue_same_role_repair-counted s' report named h = subst Counted h (same_role-Counted named)
