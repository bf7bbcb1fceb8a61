-- ===== src/Contracts/Milestones.antt =====
-- Which milestones `_validate_milestones` accepts.
use pgloom_engineering.Base.{
  String, ◌≡◌, refl, ◌↔◌, true, false, not, List, [], ◌∷◌, arith, is_empty, All, All-imp, contains,
  filter-eq-nil, filter-nil_of, append-eq-nil, eq_refl,
}
use pgloom_engineering.Contracts.{MilestoneContract, PlanContract, missing_from, slice_ids_of}
use pgloom_engineering.Contracts.Errors.{error_when-nil, error_when-append-nil}
use pgloom_engineering.Contracts.Validation.{
  milestone_errors, milestones_errors, validate_milestones,
}

-- Behind the milestones `seen`: a new id, slices of the plan, and dependencies on milestones before
-- it or on the milestone itself.
abbrev pub AreWellFormed : List String → List String → List MilestoneContract → Type 0
AreWellFormed slice_ids seen [] = Unit
AreWellFormed slice_ids seen (m ∷ rest) =
    (contains seen m.milestone_id ≡ false)
    × All (λ slice_id. contains slice_ids slice_id ≡ true) m.slice_ids
    × All (λ dep. contains (m.milestone_id ∷ seen) dep ≡ true) m.depends_on
    × AreWellFormed slice_ids (m.milestone_id ∷ seen) rest

missing_from-is_empty :
    (seen deps : List String)
    → (not (is_empty (missing_from seen deps)) ≡ false) ↔ All (λ dep. contains seen dep ≡ true) deps
unfolding missing_from
missing_from-is_empty seen deps = (
  λ h.
      All-imp deps (λ dep p. ground arith)
        (filter-eq-nil (λ dep. not (contains seen dep)) deps (ground arith)),
  λ h. ground (
    arith,
    filter-nil_of (λ dep. not (contains seen dep)) deps (All-imp deps (λ dep p. ground arith) h),
  ),
)

milestone_errors-nil :
    (slice_ids seen : List String) (m : MilestoneContract)
    → (milestone_errors slice_ids seen m ≡ []) ↔ (
        (contains seen m.milestone_id ≡ false)
        × All (λ slice_id. contains slice_ids slice_id ≡ true) m.slice_ids
        × All (λ dep. contains (m.milestone_id ∷ seen) dep ≡ true) m.depends_on)
unfolding milestone_errors
milestone_errors-nil slice_ids seen m = (
  λ h.
      let (new, h') = (error_when-append-nil _ _ _ _).0 h in
      let (known, h'') = (error_when-append-nil _ _ _ _).0 h' in
      (
        new,
        (missing_from-is_empty slice_ids m.slice_ids).0 known,
        (missing_from-is_empty (m.milestone_id ∷ seen) m.depends_on).0
            ((error_when-nil _ _ _).0 h''),
      ),
  λ h. (error_when-append-nil _ _ _ _).1 (
    h.0,
    (error_when-append-nil _ _ _ _).1 (
      (missing_from-is_empty slice_ids m.slice_ids).1 h.1,
      (error_when-nil _ _ _).1 ((missing_from-is_empty (m.milestone_id ∷ seen) m.depends_on).1 h.2),
    ),
  ),
)

milestones_errors-nil :
    (slice_ids seen : List String) (milestones : List MilestoneContract)
    → (milestones_errors slice_ids seen milestones ≡ []) ↔ AreWellFormed slice_ids seen milestones
unfolding milestones_errors
milestones_errors-nil slice_ids seen [] = (λ h. tt, λ h. refl)
milestones_errors-nil slice_ids seen (m ∷ rest) =
    let here = milestone_errors-nil slice_ids seen m in
    let later = milestones_errors-nil slice_ids (m.milestone_id ∷ seen) rest in
    (
      λ h.
          let (e, e') = append-eq-nil (milestone_errors slice_ids seen m) _ h in
          let (new, known, deps) = here.0 e in (new, known, deps, later.0 e'),
      λ h. rw (here.1 (h.0, h.1, h.2), later.1 h.3),
    )

-- The milestone checks report nothing exactly when the milestones have distinct ids, hold slices of
-- the plan, and depend on milestones before them or on themselves.
pub validate_milestones-clean_iff :
    (p : PlanContract)
    → (validate_milestones p ≡ []) ↔ AreWellFormed (slice_ids_of p.task_slices) [] p.milestones
unfolding validate_milestones
validate_milestones-clean_iff p = milestones_errors-nil (slice_ids_of p.task_slices) [] p.milestones

-- A plan of one milestone that depends on itself passes the milestone checks, if its slices are known.
pub self_dependency_accepted :
    (p : PlanContract) (m : MilestoneContract)
    → p.milestones ≡ m ∷ []
    → m.depends_on ≡ m.milestone_id ∷ []
    → All (λ slice_id. contains (slice_ids_of p.task_slices) slice_id ≡ true) m.slice_ids
    → validate_milestones p ≡ []
self_dependency_accepted p m only itself known =
    (validate_milestones-clean_iff p).1
      (rw only (refl, known, rw itself (ground (arith, eq_refl m.milestone_id), tt), tt))
