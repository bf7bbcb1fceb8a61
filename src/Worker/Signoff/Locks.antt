-- ===== src/Worker/Signoff/Locks.antt =====
-- What opens a milestone, and what keeps it locked.
use pgloom_engineering.Base.{
  String, ◌≡◌, refl, ◌≢◌, ◌↔◌, true, false, none, some, List, [], ◌∷◌, All, All-at, Has, Bool-cases,
  Option-cases, inl, inr, or_empty, is_nonempty,
}
use pgloom_engineering.Contracts.{MilestoneContract, PlanContract}
use pgloom_engineering.Workflow.Rows.{InputContract, TaskContractRow}
use pgloom_engineering.Worker.Signoff.{
  QaSignoff, milestone_signed_off, milestone_by_id, first_lock, milestone_blocker,
}

module _ (signoffs : List QaSignoff) (rows : List TaskContractRow) where
  -- The id names a milestone of the plan that is signed off.
  abbrev pub IsOpen : List MilestoneContract → String → Type 0
  IsOpen milestones id =
      (m : MilestoneContract) × (milestone_by_id milestones id ≡ some m)
      × (milestone_signed_off signoffs rows m ≡ true)

  first_lock-IsOpen :
      (milestones : List MilestoneContract) (id : String) (deps : List String)
      → first_lock signoffs rows milestones id deps ≡ none
      → All (IsOpen milestones) deps
  unfolding first_lock
  first_lock-IsOpen milestones id [] h = tt
  first_lock-IsOpen milestones id (dep ∷ deps) h =
      elim (Option-cases (milestone_by_id milestones dep)) [
        | inl e ↦ cc (rw (e, first_lock) at h)
        | inr (m, e) ↦ elim (Bool-cases (milestone_signed_off signoffs rows m)) [
          | inl s ↦ ((m, e, s), first_lock-IsOpen milestones id deps (rw (e, s, first_lock) at h))
          | inr locked ↦ cc (rw (e, locked, first_lock) at h)
        ]
      ]

  first_lock-of_open :
      (milestones : List MilestoneContract) (id : String) (deps : List String)
      → All (IsOpen milestones) deps
      → first_lock signoffs rows milestones id deps ≡ none
  unfolding first_lock
  first_lock-of_open milestones id [] h = refl
  first_lock-of_open milestones id (dep ∷ deps) ((m, found, signed), h) =
      rw (found, signed, first_lock-of_open milestones id deps h, first_lock)

  -- A task of a milestone of the plan is let through by the milestone locks exactly when each
  -- milestone that its milestone depends on is a signed-off milestone of the plan.
  pub milestone_blocker-IsOpen_iff :
      (plan : PlanContract) (c : InputContract) (m : MilestoneContract)
      → is_nonempty (or_empty c.milestone_id) ≡ true
      → milestone_by_id plan.milestones (or_empty c.milestone_id) ≡ some m
      → (milestone_blocker signoffs rows plan c ≡ none) ↔ All (IsOpen plan.milestones) m.depends_on
  unfolding milestone_blocker
  milestone_blocker-IsOpen_iff plan c m named found =
      rw (named, found)
        (
          first_lock-IsOpen plan.milestones (or_empty c.milestone_id) m.depends_on,
          first_lock-of_open plan.milestones (or_empty c.milestone_id) m.depends_on,
        )

  -- A task of a milestone that depends on itself is not let through while that milestone is not
  -- signed off.
  pub self_dependency_locks :
      (plan : PlanContract) (c : InputContract) (m : MilestoneContract)
      → is_nonempty (or_empty c.milestone_id) ≡ true
      → milestone_by_id plan.milestones (or_empty c.milestone_id) ≡ some m
      → Has (or_empty c.milestone_id) m.depends_on
      → milestone_signed_off signoffs rows m ≡ false
      → milestone_blocker signoffs rows plan c ≢ none
  self_dependency_locks plan c m named found itself unsigned h =
      let (m', found', signed) =
        All-at (IsOpen plan.milestones) m.depends_on
          ((milestone_blocker-IsOpen_iff plan c m named found).0 h) itself in
      cc (found, found', signed, unsigned)
