-- ===== src/Contracts/Dependencies.antt =====
-- What `validate_dependencies` accepts and what it fills in.
use pgloom_engineering.Base.{
  String, ◌≡◌, refl, ap, ◌∙◌, ◌↔◌, true, false, not, none, List, [], ◌∷◌, map, arith, All, All-imp,
  contains, Option-cases, inl, inr, filter-eq-nil, filter-nil_of,
}
use pgloom_engineering.Contracts.{
  TaskSliceContract, MilestoneContract, PlanContract, ok, default_milestones, missing_from,
  check_slices, claim, claim_all, default_to, fill, validate_dependencies,
}

-- Behind the slices `seen`, every slice has a new id and depends only on slices before it.
abbrev pub IsOrdered : List String → List TaskSliceContract → Type 0
IsOrdered seen [] = Unit
IsOrdered seen (s ∷ rest) =
    (contains seen s.slice_id ≡ false)
    × All (λ dep. contains seen dep ≡ true) s.depends_on
    × IsOrdered (s.slice_id ∷ seen) rest

missing_from-nil :
    (seen deps : List String)
    → (missing_from seen deps ≡ []) ↔ All (λ dep. contains seen dep ≡ true) deps
unfolding missing_from
missing_from-nil seen deps = (
  λ h. All-imp deps (λ dep p. ground arith) (filter-eq-nil (λ dep. not (contains seen dep)) deps h),
  λ h. filter-nil_of (λ dep. not (contains seen dep)) deps (All-imp deps (λ dep p. ground arith) h),
)

-- The loop step, with the test for missing dependencies as a list equation.
check_slices-cons :
    (seen : List String) (s : TaskSliceContract) (rest : List TaskSliceContract)
    → (check_slices seen (s ∷ rest) ≡ none) ↔ (
        (contains seen s.slice_id ≡ false)
        × (missing_from seen s.depends_on ≡ [])
        × (check_slices (s.slice_id ∷ seen) rest ≡ none))
unfolding check_slices
check_slices-cons seen s rest = (λ h. ground arith, λ h. ground arith)

check_slices-IsOrdered :
    (seen : List String) (slices : List TaskSliceContract)
    → check_slices seen slices ≡ none
    → IsOrdered seen slices
check_slices-IsOrdered seen [] h = tt
check_slices-IsOrdered seen (s ∷ rest) h =
    let (fresh, known, later) = (check_slices-cons seen s rest).0 h in
    (
      fresh,
      (missing_from-nil seen s.depends_on).0 known,
      check_slices-IsOrdered (s.slice_id ∷ seen) rest later,
    )

check_slices-of_IsOrdered :
    (seen : List String) (slices : List TaskSliceContract)
    → IsOrdered seen slices
    → check_slices seen slices ≡ none
unfolding check_slices
check_slices-of_IsOrdered seen [] h = refl
check_slices-of_IsOrdered seen (s ∷ rest) h = (check_slices-cons seen s rest).1 (
  h.0,
  (missing_from-nil seen s.depends_on).1 h.1,
  check_slices-of_IsOrdered (s.slice_id ∷ seen) rest h.2,
)

-- Claims leave the ids and the dependencies of the slices alone.
IsOrdered-claim :
    (assertions seen : List String) (slices : List TaskSliceContract)
    → IsOrdered seen (map (claim assertions) slices) ≡ IsOrdered seen slices
IsOrdered-claim assertions seen [] = refl
IsOrdered-claim assertions seen (s ∷ rest) =
    rw (IsOrdered-claim assertions (s.slice_id ∷ seen) rest)

check_slices-claim_all :
    (assertions : List String) (slices : List TaskSliceContract)
    → check_slices [] slices ≡ none
    → check_slices [] (claim_all assertions slices) ≡ none
check_slices-claim_all [] slices h = h
check_slices-claim_all (a ∷ assertions) slices h =
    check_slices-of_IsOrdered [] _
      (rw (IsOrdered-claim (a ∷ assertions) [] slices) (check_slices-IsOrdered [] slices h))

default_to_idem :
    (default xs : List String) → default_to default (default_to default xs) ≡ default_to default xs
default_to_idem [] [] = refl
default_to_idem (d ∷ default) [] = refl
default_to_idem default (x ∷ xs) = refl

map-claim_idem :
    (assertions : List String) (slices : List TaskSliceContract)
    → map (claim assertions) (map (claim assertions) slices) ≡ map (claim assertions) slices
map-claim_idem assertions [] = refl
map-claim_idem assertions (s ∷ slices) =
    rw (default_to_idem assertions s.acceptance_assertion_ids, map-claim_idem assertions slices)

claim_all_idem :
    (assertions : List String) (slices : List TaskSliceContract)
    → claim_all assertions (claim_all assertions slices) ≡ claim_all assertions slices
claim_all_idem [] slices = refl
claim_all_idem (a ∷ assertions) slices = map-claim_idem (a ∷ assertions) slices

default_milestones_idem :
    (slices : List TaskSliceContract) (assertions : List String)
    (milestones : List MilestoneContract)
    → default_milestones slices assertions (default_milestones slices assertions milestones)
      ≡ default_milestones slices assertions milestones
default_milestones_idem [] assertions [] = refl
default_milestones_idem (s ∷ slices) assertions [] = refl
default_milestones_idem [] assertions (m ∷ milestones) = refl
default_milestones_idem (s ∷ slices) assertions (m ∷ milestones) = refl

fill_idem : (p : PlanContract) → fill (fill p) ≡ fill p
unfolding fill
fill_idem p =
    rw (default_to_idem p.acceptance_test_matrix p.acceptance_assertions)
      (rw (claim_all_idem _ p.task_slices) (rw (default_milestones_idem _ _ p.milestones)))

validate-eq-ok :
    (p q : PlanContract)
    → validate_dependencies p ≡ ok q
    → (check_slices [] p.task_slices ≡ none) × (q ≡ fill p)
unfolding validate_dependencies
validate-eq-ok p q h = elim (Option-cases (check_slices [] p.task_slices)) [
  | inl e ↦ (e, (cc (rw (e, validate_dependencies) at h)))
  | inr (m, e) ↦ cc (rw (e, validate_dependencies) at h)
]

validate-of_none :
    (p : PlanContract)
    → check_slices [] p.task_slices ≡ none
    → validate_dependencies p ≡ ok (fill p)
unfolding validate_dependencies
validate-of_none p e = rw (e, validate_dependencies)

-- A plan passes exactly when its slices have distinct ids and each depends only on slices before it.
pub validate_dependencies-accepts_iff :
    (p : PlanContract)
    → ((q : PlanContract) × (validate_dependencies p ≡ ok q)) ↔ IsOrdered [] p.task_slices
validate_dependencies-accepts_iff p = (
  λ (q, e). check_slices-IsOrdered [] p.task_slices (validate-eq-ok p q e).0,
  λ h. (fill p, validate-of_none p (check_slices-of_IsOrdered [] p.task_slices h)),
)

-- Validating an accepted plan again, as every load of a stored plan does, accepts it unchanged.
pub validate_dependencies_idem :
    (p q : PlanContract) → validate_dependencies p ≡ ok q → validate_dependencies q ≡ ok q
unfolding fill
validate_dependencies_idem p q h =
    let (valid, filled) = validate-eq-ok p q h in
    rw filled (
      validate-of_none (fill p) (check_slices-claim_all _ p.task_slices valid)
      ∙ ap ok (fill_idem p))
