-- ===== src/Tests/Plans.antt =====
-- The theorems on plan contracts at the sample plan.
use pgloom_engineering.Base.{
  ◌≡◌, refl, ◌↔◌, inl, inr, true, false, none, some, List, [], ◌∷◌, contains, any,
}
use pgloom_engineering.Contracts.{PlanContract, validate_dependencies, ok, slice_ids_of}
use pgloom_engineering.Contracts.Dependencies.{
  IsOrdered, validate_dependencies-accepts_iff, validate_dependencies_idem,
}
use pgloom_engineering.Contracts.Milestones.{
  AreWellFormed, validate_milestones-clean_iff, self_dependency_accepted,
}
use pgloom_engineering.Contracts.Validation.{validate_milestones, validate_plan_contract}
use pgloom_engineering.Contracts.Validation.Roles.{separation_of_duties}
use pgloom_engineering.PathPolicy.{is_qa_write_path}
use pgloom_engineering.Contracts.Validation.Claims.{same_assertion, accepted_assertion_claimed}
use pgloom_engineering.Tests.Samples.{author, coder, milestone, plan_with, plan}

validate_dependencies-accepts_iff_example :
    ((q : PlanContract) × (validate_dependencies plan ≡ ok q)) ↔ IsOrdered [] plan.task_slices
validate_dependencies-accepts_iff_example = validate_dependencies-accepts_iff plan

validate_dependencies_idem_example : validate_dependencies plan ≡ ok plan
unfolding validate_dependencies pgloom_engineering.Contracts.check_slices
    pgloom_engineering.Contracts.fill
validate_dependencies_idem_example = validate_dependencies_idem plan plan refl

validate_milestones-clean_iff_example :
    (validate_milestones plan ≡ [])
    ↔ AreWellFormed (slice_ids_of plan.task_slices) [] plan.milestones
validate_milestones-clean_iff_example = validate_milestones-clean_iff plan

self_dependency_accepted_example :
    validate_milestones (plan_with (milestone "m1" ("s1" ∷ []) ("m1" ∷ []) ∷ [])) ≡ []
self_dependency_accepted_example =
    self_dependency_accepted (plan_with (milestone "m1" ("s1" ∷ []) ("m1" ∷ []) ∷ []))
      (milestone "m1" ("s1" ∷ []) ("m1" ∷ [])) refl refl (refl, tt)

separation_of_duties_example : contains coder.allowed_paths "tests/unit" ≡ false
unfolding validate_plan_contract pgloom_engineering.Base.join
    pgloom_engineering.PathPolicy.is_qa_write_path
separation_of_duties_example =
    separation_of_duties plan none [] author coder "tests/unit" refl (inl refl) (inr (inl refl))
      refl refl refl

accepted_assertion_claimed_example :
    any (λ s. any (λ c. same_assertion c "a1") s.acceptance_assertion_ids) plan.task_slices ≡ true
unfolding validate_plan_contract pgloom_engineering.Base.join
    pgloom_engineering.PathPolicy.is_qa_write_path
accepted_assertion_claimed_example = accepted_assertion_claimed plan none [] "a1" refl refl
