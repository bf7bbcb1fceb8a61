-- ===== src/Workflow/Recovery/Budget.antt =====
-- The limit on the recoveries of a blocked task.
use pgloom_engineering.Base.{
  ℕ, ◌+◌, ◌≤◌, ◌<◌, max, ◌==◌, ◌≡◌, refl, subst, inl, inr, Bool, true, ◌||◌, List, [], ◌∷◌, Option,
  arith, contains, Has, Bool-cases, some, none, if-either, find, find-eq-some, or_empty,
}
use pgloom_engineering.Settings.{Settings}
use pgloom_engineering.Workflow.Texts.{Texts}
use pgloom_engineering.Workflow.Rows.{TaskRow, Store, Candidate, is_blocked, or_one}
use pgloom_engineering.Workflow.Recovery.{
  candidate_from, has_repair_evidence, completed_recovery_count, next_recovery_attempt,
  is_recoverable, recoverable_blocked_task,
}

Has-find : {A : Type 0} (p : A → Bool) (xs : List A) (x : A) → find p xs ≡ some x → Has x xs
Has-find p [] x h = cc
Has-find p (y ∷ xs) x h = elim (Bool-cases (p y)) [
  | inl here ↦ inl (ground (arith, here, h))
  | inr later ↦ inr (Has-find p xs x (rw later at h))
]

module _ (texts : Texts) (settings : Settings) (s : Store) where
  count_lt_attempt :
      (t : TaskRow)
      → completed_recovery_count s (or_empty t.blocker_code) t.id
        < next_recovery_attempt texts settings s t
  unfolding next_recovery_attempt
  count_lt_attempt t =
      if-either (λ n. completed_recovery_count s (or_empty t.blocker_code) t.id < n)
        (contains settings.workflow_replan_immediate_blocker_codes (or_empty t.blocker_code)
          || or_empty t.blocker_code == "engineering.worker_crash"
          || has_repair_evidence texts settings t)
        {x = completed_recovery_count s (or_empty t.blocker_code) t.id + 1}
        {y = max (or_one t.attempt) (completed_recovery_count s (or_empty t.blocker_code) t.id + 1)}
        (omega arith) (omega arith)

  is_recoverable-within :
      (t : TaskRow)
      → is_recoverable texts settings s t ≡ true
      → (is_blocked t.state ≡ true)
        × (next_recovery_attempt texts settings s t
            ≤ settings.workflow_replan_after_blocked_attempts)
  unfolding is_recoverable
  is_recoverable-within t h = ground (arith, h)

  abbrev pub max_attempts : ℕ
  max_attempts = settings.workflow_replan_after_blocked_attempts

  abbrev pub Within : Option Candidate → Type 0
  Within none = Unit
  Within (some c) =
      Has c.task s.tasks
      × (is_blocked c.task.state ≡ true)
      × (completed_recovery_count s (or_empty c.task.blocker_code) c.task.id < c.recovery_attempt)
      × (c.recovery_attempt ≤ max_attempts)

  found-Within :
      (o : Option TaskRow)
      → find (is_recoverable texts settings s) s.tasks ≡ o
      → Within (candidate_from texts settings s o)
  found-Within none e = tt
  found-Within (some t) e =
      let within =
        is_recoverable-within t (find-eq-some (is_recoverable texts settings s) s.tasks t e) in
      (
        Has-find (is_recoverable texts settings s) s.tasks t e,
        within.0,
        count_lt_attempt t,
        within.1,
      )

  -- If a round picks a task to recover, the task is a blocked task of the feature, and the attempt
  -- counts at least one more than the task's finished recoveries from its blocker and stays within
  -- the configured number of attempts.
  pub recoverable_blocked_task-within_budget :
      (c : Candidate)
      → recoverable_blocked_task texts settings s ≡ some c
      → Has c.task s.tasks
        × (is_blocked c.task.state ≡ true)
        × (completed_recovery_count s (or_empty c.task.blocker_code) c.task.id < c.recovery_attempt)
        × (c.recovery_attempt ≤ max_attempts)
  unfolding recoverable_blocked_task
  recoverable_blocked_task-within_budget c h =
      subst Within h (found-Within (find (is_recoverable texts settings s) s.tasks) refl)
