-- ===== src/Contracts/Validation/Roles.antt =====
-- Who may write what in a plan that `validate_plan_contract` accepts.
use pgloom_engineering.Base.{
  String, ◌≡◌, ◌==◌, true, false, not, Option, List, [], ◌∷◌, arith, any, All, All-at, Has,
  contains, append-eq-nil, any-false-at, ◌&&◌, Bool-cases, inl, inr, eq_refl,
}
use pgloom_engineering.Base.Json.{Fields}
use pgloom_engineering.PathPolicy.{is_qa_write_path}
use pgloom_engineering.Contracts.{TaskSliceContract, PlanContract}
use pgloom_engineering.Contracts.Errors.{error_when-nil, error_when-append-nil}
use pgloom_engineering.Contracts.Validation.Coverage.{validate_acceptance_assertion_coverage}
use pgloom_engineering.Contracts.Validation.{
  validate_plan_contract, validate_milestones, slices_errors, slice_errors,
  validate_role_path_policy, validate_role_task_type, plan_errors, validate_design_contract_drift,
  validate_lifecycle_acceptance, qa_task_types,
}

module _ (qa_write_paths : List String) where
  slices_errors-nil :
      (slices : List TaskSliceContract)
      → slices_errors qa_write_paths slices ≡ []
      → All (λ s. slice_errors qa_write_paths s ≡ []) slices
  unfolding slices_errors
  slices_errors-nil [] h = tt
  slices_errors-nil (s ∷ rest) h =
      let (here, later) = append-eq-nil (slice_errors qa_write_paths s) _ h in
      (here, slices_errors-nil rest later)

  path_policy_of_slice :
      (s : TaskSliceContract)
      → slice_errors qa_write_paths s ≡ []
      → validate_role_path_policy s qa_write_paths ≡ []
  unfolding slice_errors
  path_policy_of_slice s h =
      let (role, h') = (error_when-append-nil _ _ _ _).0 h in
      let (task_type, h'') = append-eq-nil (validate_role_task_type s) _ h' in
      (append-eq-nil (validate_role_path_policy s qa_write_paths) _ h'').0

  path_policy-nil :
      (s : TaskSliceContract)
      → validate_role_path_policy s qa_write_paths ≡ []
      → ((contains qa_task_types s.task_type
            && any (λ path. not (is_qa_write_path path qa_write_paths)) s.allowed_paths)
          ≡ false)
        × ((s.role == "implementer"
              && any (λ path. is_qa_write_path path qa_write_paths) s.allowed_paths)
            ≡ false)
  unfolding validate_role_path_policy
  path_policy-nil s h =
      let (qa, h') = (error_when-append-nil _ _ _ _).0 h in (qa, (error_when-nil _ _ _).0 h')

  -- The two kinds of slices may write on different sides of the QA roots.
  pub qa_path :
      (s : TaskSliceContract) (path : String)
      → validate_role_path_policy s qa_write_paths ≡ []
      → contains qa_task_types s.task_type ≡ true
      → contains s.allowed_paths path ≡ true
      → is_qa_write_path path qa_write_paths ≡ true
  qa_path s path h qa m = ground (
    arith,
    (path_policy-nil s h).0,
    any-false-at (λ path. not (is_qa_write_path path qa_write_paths)) s.allowed_paths path,
  )

  pub implementer_path :
      (s : TaskSliceContract) (path : String)
      → validate_role_path_policy s qa_write_paths ≡ []
      → (s.role == "implementer") ≡ true
      → contains s.allowed_paths path ≡ true
      → is_qa_write_path path qa_write_paths ≡ false
  implementer_path s path h implementer m = ground (
    arith,
    (path_policy-nil s h).1,
    any-false-at (λ path. is_qa_write_path path qa_write_paths) s.allowed_paths path,
  )

-- An accepted plan passes each group of checks; here are the two that follow statements need.
pub accepted_parts :
    (p : PlanContract) (origin : Option Fields) (qa_write_paths : List String)
    → validate_plan_contract p origin qa_write_paths ≡ []
    → (validate_milestones p ≡ []) × (slices_errors qa_write_paths p.task_slices ≡ [])
unfolding validate_plan_contract
accepted_parts p origin qa_write_paths clean =
    let (e₁, r₁) = append-eq-nil (plan_errors p) _ clean in
    let (e₂, r₂) = append-eq-nil (validate_design_contract_drift p origin) _ r₁ in
    let (e₃, r₃) = append-eq-nil (validate_lifecycle_acceptance p) _ r₂ in
    let (e₄, r₄) = append-eq-nil (validate_milestones p) _ r₃ in
    let (e₅, r₅) = append-eq-nil (validate_acceptance_assertion_coverage p) _ r₄ in (e₄, r₅)

-- In an accepted plan a path that a QA slice may write stands in no implementer slice's allowed paths.
pub separation_of_duties :
    (p : PlanContract) (origin : Option Fields) (qa_write_paths : List String)
    (author coder : TaskSliceContract) (path : String)
    → validate_plan_contract p origin qa_write_paths ≡ []
    → Has author p.task_slices
    → Has coder p.task_slices
    → contains qa_task_types author.task_type ≡ true
    → coder.role ≡ "implementer"
    → contains author.allowed_paths path ≡ true
    → contains coder.allowed_paths path ≡ false
separation_of_duties p origin qa_write_paths author coder path clean ma mc qa implementer m =
    let slices =
      slices_errors-nil qa_write_paths p.task_slices
        (accepted_parts p origin qa_write_paths clean).1 in
    let writable =
      qa_path qa_write_paths author path
        (path_policy_of_slice qa_write_paths author (All-at _ p.task_slices slices ma)) qa m in
    elim (Bool-cases (contains coder.allowed_paths path)) [
      | inr absent ↦ absent
      | inl found ↦
          let protected =
            implementer_path qa_write_paths coder path
              (path_policy_of_slice qa_write_paths coder (All-at _ p.task_slices slices mc))
              (rw implementer (eq_refl "implementer")) found in
          absurd (cc (writable, protected))
    ]
