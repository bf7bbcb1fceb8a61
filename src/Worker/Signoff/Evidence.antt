-- ===== src/Worker/Signoff/Evidence.antt =====
-- What signs a milestone off, in terms of the rows alone.
use pgloom_engineering.Base.{
  String, ◌==◌, ◌≡◌, refl, ◌↔◌, ◌⊎◌, Bool, true, ◌&&◌, ◌||◌, not, List, [], ◌∷◌, arith, any, Any,
  same_iff, either_iff, not_iff, both_iff, any_iff, false_iff,
}
use pgloom_engineering.Contracts.{
  MilestoneContract, SignoffPolicy, scrutiny_only, scrutiny_and_usertest,
}
use pgloom_engineering.Workflow.Rows.{TaskContractRow}
use pgloom_engineering.Worker.Signoff.{
  QaSignoff, is_scrutiny_only, signoff_passed, any_passed, of_milestone, validator_passed,
  milestone_signed_off,
}
use pgloom_engineering.Worker.Signoff.Passing.{PassedBy, validator_passed_iff}

-- A sign-off of the milestone that is a pass.
abbrev pub IsPass : MilestoneContract → QaSignoff → Type 0
IsPass m r = (r.milestone_id ≡ m.milestone_id) × (r.verdict ≡ "pass")

-- The milestone has a pass of its own, and one of the validator.
abbrev pub HasPass : List QaSignoff → MilestoneContract → Type 0
HasPass signoffs m = Any (IsPass m) signoffs

abbrev pub SignedBy : List QaSignoff → MilestoneContract → String → Type 0
SignedBy signoffs m validator =
    Any
      (λ r.
        (r.milestone_id ≡ m.milestone_id) × ((r.validator_type ≡ validator) × (r.verdict ≡ "pass")))
      signoffs

any-of_milestone :
    (p : QaSignoff → Bool) (m : MilestoneContract) (signoffs : List QaSignoff)
    → any p (of_milestone m signoffs) ≡ any (λ r. r.milestone_id == m.milestone_id && p r) signoffs
any-of_milestone p m [] = refl
any-of_milestone p m (r ∷ signoffs) = ground (arith, any-of_milestone p m signoffs)

any_passed_iff :
    (signoffs : List QaSignoff) (m : MilestoneContract)
    → (any_passed (of_milestone m signoffs) ≡ true) ↔ HasPass signoffs m
unfolding any_passed
any_passed_iff signoffs m = rw (any-of_milestone (λ r. r.verdict == "pass") m signoffs) (
    any_iff _ _ signoffs (λ (r : QaSignoff).
      both_iff _ _ _ _ (same_iff r.milestone_id m.milestone_id) (same_iff r.verdict "pass")))

signoff_passed_iff :
    (signoffs : List QaSignoff) (m : MilestoneContract) (validator : String)
    → (signoff_passed (of_milestone m signoffs) validator ≡ true) ↔ SignedBy signoffs m validator
unfolding signoff_passed
signoff_passed_iff signoffs m validator =
    rw (any-of_milestone (λ r. r.validator_type == validator && r.verdict == "pass") m signoffs) (
      any_iff _ _ signoffs (λ (r : QaSignoff).
        both_iff _ _ _ _ (same_iff r.milestone_id m.milestone_id)
          (both_iff _ _ _ _ (same_iff r.validator_type validator) (same_iff r.verdict "pass"))))

only-scrutiny : (policy : SignoffPolicy) → is_scrutiny_only policy ≡ true → policy ≡ scrutiny_only
only-scrutiny scrutiny_only h = refl
only-scrutiny scrutiny_and_usertest h = cc

is_scrutiny_only_iff :
    (policy : SignoffPolicy) → (is_scrutiny_only policy ≡ true) ↔ (policy ≡ scrutiny_only)
is_scrutiny_only_iff policy = (only-scrutiny policy, λ h. rw h refl)

-- The two sources of evidence side by side.
milestone_signed_off-sources :
    (signoffs : List QaSignoff) (rows : List TaskContractRow) (m : MilestoneContract)
    → let own = of_milestone m signoffs in
      let only = is_scrutiny_only m.signoff_policy in
      milestone_signed_off signoffs rows m ≡ (
        (any_passed own
          && (signoff_passed own "scrutiny" && (only || signoff_passed own "usertest")))
        || (not (any_passed own)
            && (validator_passed rows m.slice_ids "engineering.qa.verify.scrutiny"
                && (only || validator_passed rows m.slice_ids "engineering.qa.verify.usertest"))))
unfolding milestone_signed_off
milestone_signed_off-sources signoffs rows m = ground arith

-- A milestone is signed off exactly when either one of its own sign-offs is a pass, the scrutiny
-- passed it in them, and so did the user test unless its policy asks for scrutiny only; or none of
-- its own sign-offs is a pass, and the last row of some slice of it is a completed scrutiny with the
-- verdict `pass`, and that of some slice a completed user test with that verdict, unless its policy
-- asks for scrutiny only.
pub milestone_signed_off_iff :
    (signoffs : List QaSignoff) (rows : List TaskContractRow) (m : MilestoneContract)
    → (milestone_signed_off signoffs rows m ≡ true) ↔ (
        (HasPass signoffs m
          × (SignedBy signoffs m "scrutiny"
              × ((m.signoff_policy ≡ scrutiny_only) ⊎ SignedBy signoffs m "usertest")))
        ⊎ ((HasPass signoffs m → ⊥)
            × (PassedBy rows m "engineering.qa.verify.scrutiny"
                × ((m.signoff_policy ≡ scrutiny_only)
                    ⊎ PassedBy rows m "engineering.qa.verify.usertest"))))
milestone_signed_off_iff signoffs rows m =
    let only = is_scrutiny_only_iff m.signoff_policy in
    rw (milestone_signed_off-sources signoffs rows m) (
      either_iff _ _ _ _
        (both_iff _ _ _ _ (any_passed_iff signoffs m) (
          both_iff _ _ _ _ (signoff_passed_iff signoffs m "scrutiny")
            (either_iff _ _ _ _ only (signoff_passed_iff signoffs m "usertest"))))
        (both_iff _ _ _ _ (not_iff _ _ (false_iff _ _ (any_passed_iff signoffs m))) (
          both_iff _ _ _ _ (validator_passed_iff rows m "engineering.qa.verify.scrutiny") (
            either_iff _ _ _ _ only
              (validator_passed_iff rows m "engineering.qa.verify.usertest")))))
