-- ===== src/Contracts/Validation/Claims.antt =====
-- The claims of slices in the acceptance coverage checks of contracts.py.
use pgloom_engineering.Base.{
  ℕ, String, ◌≡◌, refl, sym, ◌∙◌, subst, Bool, true, false, not, ◌||◌, Option, List, [], ◌∷◌, map,
  arith, is_empty, filter, any, All, filter-eq-nil, append-eq-nil, contains, eq_iff, Bool-cases,
  inl, inr, if-either,
}
use Prim.Native.String.{compare}
use text.Mathlib.Text.{is_le}
use pgloom_engineering.Base.Codes.{same_codes}
use pgloom_engineering.Base.Json.{Fields}
use pgloom_engineering.Contracts.{MilestoneContract, TaskSliceContract, PlanContract}
use pgloom_engineering.Contracts.Errors.{error_when-append-nil}
use pgloom_engineering.Contracts.Validation.{
  validate_plan_contract, plan_errors, validate_design_contract_drift,
  validate_lifecycle_acceptance, validate_milestones,
}
use pgloom_engineering.Contracts.Validation.Coverage.{
  canonical_acceptance_assertion_id, Labels, put_label, put_labels, has_id, milestone_labels,
  assertion_labels, claims_of, unclaiming_errors, insert_sorted, sorted, labels_outside,
  validate_acceptance_assertion_coverage,
}

same_codes-eq : (s t : List ℕ) → same_codes s t ≡ true → s ≡ t
unfolding same_codes
same_codes-eq [] [] h = refl
same_codes-eq [] (d ∷ t) h = cc
same_codes-eq (c ∷ s) [] h = cc
same_codes-eq (c ∷ s) (d ∷ t) h = ground (arith, same_codes-eq s t)

same_codes_refl : (s : List ℕ) → same_codes s s ≡ true
unfolding same_codes
same_codes_refl [] = refl
same_codes_refl (c ∷ s) = ground (arith, same_codes_refl s)

-- The two assertions have the same canonical id.
abbrev pub same_assertion : String → String → Bool
same_assertion a b =
    same_codes (canonical_acceptance_assertion_id a) (canonical_acceptance_assertion_id b)

or_absorb : (x y : Bool) → (x || y) ≡ (x || (x || y))
or_absorb x y = ground arith

has_id-put_label :
    (a : String) (labels : Labels) (id : List ℕ)
    → has_id (put_label a labels) id
      ≡ (same_codes (canonical_acceptance_assertion_id a) id || has_id labels id)
unfolding has_id put_label
has_id-put_label a [] id = refl
has_id-put_label a ((key, old) ∷ rest) id =
    elim (Bool-cases (same_codes key (canonical_acceptance_assertion_id a))) [
      | inl same ↦
          rw (same, same_codes-eq key (canonical_acceptance_assertion_id a) same)
            (or_absorb (same_codes (canonical_acceptance_assertion_id a) id) (has_id rest id))
      | inr other ↦ rw (other) (ground (arith, has_id-put_label a rest id))
    ]

has_id-put_labels :
    (assertions : List String) (labels : Labels) (id : List ℕ)
    → has_id (put_labels assertions labels) id ≡ (
        any (λ a. same_codes (canonical_acceptance_assertion_id a) id) assertions
        || has_id labels id)
unfolding put_labels
has_id-put_labels [] labels id = refl
has_id-put_labels (a ∷ assertions) labels id =
    ground
      (arith, has_id-put_labels assertions (put_label a labels) id, has_id-put_label a labels id)

has_id-milestone_labels :
    (milestones : List MilestoneContract) (labels : Labels) (id : List ℕ)
    → has_id labels id ≡ true
    → has_id (milestone_labels milestones labels) id ≡ true
unfolding milestone_labels
has_id-milestone_labels [] labels id h = h
has_id-milestone_labels (m ∷ rest) labels id h =
    has_id-milestone_labels rest (put_labels m.acceptance_assertions labels) id
      (ground (arith, has_id-put_labels m.acceptance_assertions labels id))

abbrev claims_id : List ℕ → TaskSliceContract → Bool
claims_id id s =
    any (λ c. same_codes (canonical_acceptance_assertion_id c) id) s.acceptance_assertion_ids

has_id-claims_of :
    (slices : List TaskSliceContract) (labels : Labels) (id : List ℕ)
    → has_id (claims_of slices labels) id ≡ (any (claims_id id) slices || has_id labels id)
unfolding claims_of
has_id-claims_of [] labels id = refl
has_id-claims_of (s ∷ rest) labels id = ground (
  arith,
  has_id-claims_of rest (put_labels s.acceptance_assertion_ids labels) id,
  has_id-put_labels s.acceptance_assertion_ids labels id,
)

insert_sorted-nonempty : (s : String) (ss : List String) → is_empty (insert_sorted s ss) ≡ false
unfolding insert_sorted
insert_sorted-nonempty s [] = refl
insert_sorted-nonempty s (t ∷ ts) =
    if-either (λ (xs : List String). is_empty xs ≡ false) (is_le (compare s t)) {x = s ∷ t ∷ ts}
      {y = t ∷ insert_sorted s ts} refl refl

sorted-is_empty : (ss : List String) → is_empty (sorted ss) ≡ is_empty ss
unfolding sorted
sorted-is_empty [] = refl
sorted-is_empty (s ∷ ss) = insert_sorted-nonempty s (sorted ss)

map-is_empty : {A B : Type 0} (f : A → B) (xs : List A) → is_empty (map f xs) ≡ is_empty xs
map-is_empty f [] = refl
map-is_empty f (x ∷ xs) = refl

nil-of_is_empty : {A : Type 0} (xs : List A) → is_empty xs ≡ true → xs ≡ []
nil-of_is_empty [] h = refl
nil-of_is_empty (x ∷ xs) h = cc

-- With nothing outside, each label has its id among the others.
labels_outside-nil :
    (labels others : Labels)
    → is_empty (labels_outside labels others) ≡ true
    → All (λ e. not (has_id others e.0) ≡ false) labels
unfolding labels_outside
labels_outside-nil labels others h =
    filter-eq-nil (λ e. not (has_id others e.0)) labels
      (nil-of_is_empty (filter (λ e. not (has_id others e.0)) labels) (
        sym (map-is_empty (λ e. e.1) (filter (λ e. not (has_id others e.0)) labels))
        ∙ sym (sorted-is_empty (map (λ e. e.1) (filter (λ e. not (has_id others e.0)) labels)))
        ∙ h))

unnegated : (b : Bool) → not b ≡ false → b ≡ true
unnegated true h = refl
unnegated false h = cc

has_id-transfer :
    (labels others : Labels) (id : List ℕ)
    → All (λ e. not (has_id others e.0) ≡ false) labels
    → has_id labels id ≡ true
    → has_id others id ≡ true
unfolding has_id
has_id-transfer [] others id h m = cc
has_id-transfer ((key, label) ∷ rest) others id h m = elim (Bool-cases (same_codes key id)) [
  | inl same ↦
      subst (λ k. has_id others k ≡ true) (same_codes-eq key id same)
        (unnegated (has_id others key) h.0)
  | inr other ↦ has_id-transfer rest others id h.1 (rw (other) at m)
]

any-same :
    (a : String) (assertions : List String)
    → contains assertions a ≡ true
    → any
        (λ b.
          same_codes (canonical_acceptance_assertion_id b) (canonical_acceptance_assertion_id a))
        assertions
      ≡ true
any-same a [] h = cc
any-same a (b ∷ rest) h =
    ground
      (arith, eq_iff a b, same_codes_refl (canonical_acceptance_assertion_id a), any-same a rest)

has_id-assertion_labels :
    (p : PlanContract) (a : String)
    → contains p.acceptance_assertions a ≡ true
    → has_id (assertion_labels p) (canonical_acceptance_assertion_id a) ≡ true
unfolding assertion_labels
has_id-assertion_labels p a m =
    has_id-milestone_labels p.milestones (put_labels p.acceptance_assertions [])
      (canonical_acceptance_assertion_id a)
      (rw (
        has_id-put_labels p.acceptance_assertions [] (canonical_acceptance_assertion_id a),
        any-same a p.acceptance_assertions m,
      ))

-- If the coverage checks report nothing, all labels are claimed.
coverage-claimed :
    (p : PlanContract)
    → is_empty (assertion_labels p) ≡ false
    → validate_acceptance_assertion_coverage p ≡ []
    → is_empty (labels_outside (assertion_labels p) (claims_of p.task_slices [])) ≡ true
unfolding validate_acceptance_assertion_coverage
coverage-claimed p some_label h =
    let (_, h') = append-eq-nil (unclaiming_errors p.task_slices) _ (rw (some_label) at h) in
    let (missing, _) = (error_when-append-nil _ _ _ _).0 h' in
    unnegated (is_empty (labels_outside (assertion_labels p) (claims_of p.task_slices []))) missing

nonempty_of_has_id :
    (labels : Labels) (id : List ℕ) → has_id labels id ≡ true → is_empty labels ≡ false
unfolding has_id
nonempty_of_has_id [] id h = cc
nonempty_of_has_id (e ∷ labels) id h = refl

accepted_coverage :
    (p : PlanContract) (origin : Option Fields) (qa_write_paths : List String)
    → validate_plan_contract p origin qa_write_paths ≡ []
    → validate_acceptance_assertion_coverage p ≡ []
unfolding validate_plan_contract
accepted_coverage p origin qa_write_paths clean =
    let (e₁, r₁) = append-eq-nil (plan_errors p) _ clean in
    let (e₂, r₂) = append-eq-nil (validate_design_contract_drift p origin) _ r₁ in
    let (e₃, r₃) = append-eq-nil (validate_lifecycle_acceptance p) _ r₂ in
    let (e₄, r₄) = append-eq-nil (validate_milestones p) _ r₃ in
    (append-eq-nil (validate_acceptance_assertion_coverage p) _ r₄).0

claimed_of_has_id :
    (slices : List TaskSliceContract) (id : List ℕ)
    → has_id (claims_of slices []) id ≡ true
    → any (claims_id id) slices ≡ true
unfolding has_id
claimed_of_has_id slices id h = ground (arith, h, has_id-claims_of slices [] id)

-- In a plan that is accepted, each acceptance assertion has a slice that claims an assertion with
-- the same canonical id.
pub accepted_assertion_claimed :
    (p : PlanContract) (origin : Option Fields) (qa_write_paths : List String) (a : String)
    → validate_plan_contract p origin qa_write_paths ≡ []
    → contains p.acceptance_assertions a ≡ true
    → any (λ s. any (λ c. same_assertion c a) s.acceptance_assertion_ids) p.task_slices ≡ true
accepted_assertion_claimed p origin qa_write_paths a clean m =
    let id = canonical_acceptance_assertion_id a in
    let known = has_id-assertion_labels p a m in
    let inside = labels_outside-nil (assertion_labels p) (claims_of p.task_slices []) (
      coverage-claimed p (nonempty_of_has_id (assertion_labels p) id known)
        (accepted_coverage p origin qa_write_paths clean)) in
    claimed_of_has_id p.task_slices id
      (has_id-transfer (assertion_labels p) (claims_of p.task_slices []) id inside known)
