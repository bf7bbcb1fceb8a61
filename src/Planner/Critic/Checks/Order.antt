-- ===== src/Planner/Critic/Checks/Order.antt =====
-- The order of the slices of a plan that the review of planner/critic.py accepts.
use pgloom_engineering.Base.{
  String, ◌≡◌, refl, Bool, true, false, none, some, List, [], ◌∷◌, arith, if◌then◌else◌, is_empty,
  find, flat_map, Has, inl, inr, find-Has, contains, any-eq-true, Any, append-eq-nil, Bool-cases,
  ◌==◌, sym, ◌∙◌, ap, if-either, Has-of_contains, subst,
}
use pgloom_engineering.Base.Json.{Json}
use pgloom_engineering.Contracts.{Checked, PlanContract, TaskSliceContract}
use pgloom_engineering.Planner.Critic.{is_accept, finding}
use pgloom_engineering.Planner.Critic.Rubric.{CheckDefinition, rubric_checks}
use pgloom_engineering.Planner.Critic.Review.{review, Printing}
use pgloom_engineering.Planner.Critic.Checks.{CheckContext}
use pgloom_engineering.Planner.Critic.Checks.Roles.{
  qa_author_findings, author_findings, task_type_slices, role_slices, id_set, is_before_authors,
  late_findings,
}
use pgloom_engineering.Planner.Critic.Checks.Dispatch.{run_deterministic_check}
use pgloom_engineering.Planner.Critic.Checks.Achievable.{
  accepted-nil, check_named, Has-filter, Has-filter_of, flat_map-eq-nil, finding_when-eq-nil,
}
use pgloom_engineering.Planner.Critic.Dependencies.{depends_on_transitively, DependsOn}
use pgloom_engineering.Planner.Critic.Dependencies.Decided.{depends_on_transitively_lem}

pub found-DependsOn :
    (slices : List TaskSliceContract) (a b : String)
    → depends_on_transitively slices a b ≡ true
    → DependsOn slices b a
found-DependsOn slices a b h =
    let (c, (e, (same, decides))) = depends_on_transitively_lem slices a b in
    decides.0 (sym same ∙ h)

later_member :
    (s : TaskSliceContract) (rest : List TaskSliceContract) (i : String)
    → (t : TaskSliceContract) × (Has t rest × (t.slice_id ≡ i))
    → (t : TaskSliceContract) × (Has t (s ∷ rest) × (t.slice_id ≡ i))
later_member s rest i (t, (m, e)) = (t, (inr m, e))

-- A member of the set of ids is the id of a slice.
id_set-Has :
    (slices : List TaskSliceContract) (i : String)
    → Has i (id_set slices)
    → (s : TaskSliceContract) × (Has s slices × (s.slice_id ≡ i))
id_set-Has [] i m = elim m [ ]
id_set-Has (s ∷ rest) i m = elim (Bool-cases (contains (id_set rest) s.slice_id)) [
  | inl known ↦ later_member s rest i (
      id_set-Has rest i
        (subst (λ b. Has i (if b then id_set rest else s.slice_id ∷ id_set rest)) known m))
  | inr new ↦
      elim (subst (λ b. Has i (if b then id_set rest else s.slice_id ∷ id_set rest)) new m) [
        | inl here ↦ (s, (inl refl, here))
        | inr later ↦ later_member s rest i (id_set-Has rest i later)
      ]
]

pub id_set-contains :
    (slices : List TaskSliceContract) (s : TaskSliceContract)
    → Has s slices
    → Has s.slice_id (id_set slices)
id_set-contains [] s m = elim m [ ]
id_set-contains (t ∷ rest) s (inl e) = elim (Bool-cases (contains (id_set rest) t.slice_id)) [
  | inl known ↦
      rw (known) (
        subst (λ x. Has x.slice_id (id_set rest)) e
          (Has-of_contains (id_set rest) t.slice_id known))
  | inr new ↦ rw (new) (inl (ap (λ x. x.slice_id) e))
]
id_set-contains (t ∷ rest) s (inr m) =
    if-either (Has s.slice_id) (contains (id_set rest) t.slice_id) (id_set-contains rest s m)
      (inr (id_set-contains rest s m))

author_run :
    (x : CheckContext) (plan : PlanContract)
    → run_deterministic_check x plan (check_named "check_qa_author_present")
      ≡ qa_author_findings x (check_named "check_qa_author_present") plan
unfolding run_deterministic_check rubric_checks
author_run x plan = refl

pub checked-Has :
    (id : String)
    → (d : CheckDefinition) → find (λ e. e.check_id == id) rubric_checks ≡ some d
    → Has d rubric_checks
checked-Has id d h = find-Has (λ e. e.check_id == id) rubric_checks d h

-- A list of findings in two cases is empty in the second case only.
pub if-nil :
    {A : Type 0} (b : Bool) (x : A) (xs ys : List A) → (if b then x ∷ xs else ys) ≡ [] → ys ≡ []
if-nil true x xs ys h = cc
if-nil false x xs ys h = h

Any-Has :
    {A : Type 0} (p : A → Bool) (xs : List A)
    → Any (λ x. p x ≡ true) xs
    → (x : A) × (Has x xs × (p x ≡ true))
Any-Has p [] m = elim m [ ]
Any-Has p (x ∷ xs) (inl h) = (x, (inl refl, h))
Any-Has p (x ∷ xs) (inr m) = let (y, (n, h)) = Any-Has p xs m in (y, (inr n, h))

-- In a plan that the review accepts, for each implementer slice there is a QA author slice that
-- the implementer depends on, directly or through other slices.
pub accepted-authors :
    {A : Type 0} (p : Printing) (x : CheckContext) (plan : PlanContract) (errors : List A)
    (answer : Checked Json) (i : TaskSliceContract)
    → is_accept (review p (run_deterministic_check x plan) errors answer).verdict ≡ true
    → Has i plan.task_slices
    → (i.role == "implementer") ≡ true
    → (a : TaskSliceContract) × (Has a plan.task_slices
        × (((a.task_type == "engineering.qa.author") ≡ true)
            × DependsOn plan.task_slices a.slice_id i.slice_id))
unfolding qa_author_findings rubric_checks
accepted-authors p x plan errors answer i h m r =
    let d = check_named "check_qa_author_present" in
    let clear =
      sym (author_run x plan)
      ∙ accepted-nil p (run_deterministic_check x plan) errors answer d h
          (checked-Has "check_qa_author_present" d refl) refl in
    let orders =
      append-eq-nil (flat_map (author_findings x d) (task_type_slices plan "engineering.qa.author"))
        (flat_map (late_findings d plan) (role_slices plan "implementer"))
        (if-nil (is_empty (task_type_slices plan "engineering.qa.author"))
          (finding d "qa_author_missing" "Missing engineering.qa.author slice." none) [] _ clear) in
    let implementer_clear =
      finding_when-eq-nil (is_before_authors plan i)
        (finding d "qa_author_not_before_implementer"
          "Every implementer slice must depend on a QA author slice." (some i.slice_id))
        (flat_map-eq-nil (late_findings d plan) (role_slices plan "implementer") orders.1 i
          (Has-filter_of (λ s. s.role == "implementer") plan.task_slices i m r)) in
    let (a, (n, before)) =
      Any-Has (λ author. depends_on_transitively plan.task_slices i.slice_id author)
        (id_set (task_type_slices plan "engineering.qa.author"))
        (any-eq-true (λ author. depends_on_transitively plan.task_slices i.slice_id author)
          (id_set (task_type_slices plan "engineering.qa.author"))
          (ground (arith, implementer_clear))) in
    let (s, (k, same)) = id_set-Has (task_type_slices plan "engineering.qa.author") a n in
    let (u, t) = Has-filter (λ q. q.task_type == "engineering.qa.author") plan.task_slices s k in
    (
      s,
      (
        u,
        (
          t,
          subst (λ y. DependsOn plan.task_slices y i.slice_id) (sym same)
              (found-DependsOn plan.task_slices i.slice_id a before),
        ),
      ),
    )
