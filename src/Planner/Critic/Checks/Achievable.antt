-- ===== src/Planner/Critic/Checks/Achievable.antt =====
-- What a plan has that the review of planner/critic.py accepts.
use pgloom_engineering.Base.{
  String, ◌≡◌, refl, Bool, true, false, not, ◌||◌, none, some, List, [], ◌∷◌, arith, if◌then◌else◌,
  is_empty, find, filter, flat_map, Has, inl, inr, All-at, all-eq-true, append-eq-nil, Bool-cases,
  ◌==◌, sym, ◌∙◌, subst, if-split, if-either,
}
use pgloom_engineering.Base.Json.{Json}
use pgloom_engineering.Contracts.{Checked}
use pgloom_engineering.Planner.Critic.{CriticFinding, is_accept}
use pgloom_engineering.Planner.Critic.Rubric.{advisory, is_blocking, CheckDefinition, rubric_checks}
use pgloom_engineering.Planner.Critic.Review.{review, Printing}
use pgloom_engineering.Planner.Critic.Accepting.{is_clear, is_acceptable, review-verdict}
use pgloom_engineering.Planner.Critic.Checks.{finding_when}

pub flat_map-eq-nil :
    {A B : Type 0} (f : A → List B) (xs : List A)
    → flat_map f xs ≡ []
    → (x : A) → Has x xs
    → f x ≡ []
flat_map-eq-nil f [] h x m = elim m [ ]
flat_map-eq-nil f (y ∷ xs) h x (inl e) =
    subst (λ z. f z ≡ []) e (append-eq-nil (f y) (flat_map f xs) h).0
flat_map-eq-nil f (y ∷ xs) h x (inr m) =
    flat_map-eq-nil f xs (append-eq-nil (f y) (flat_map f xs) h).1 x m

pub finding_when-eq-nil : (b : Bool) (f : CriticFinding) → finding_when b f ≡ [] → b ≡ false
finding_when-eq-nil true f h = cc
finding_when-eq-nil false f h = refl

pub Has-filter :
    {A : Type 0} (p : A → Bool) (xs : List A) (x : A)
    → Has x (filter p xs)
    → Has x xs × (p x ≡ true)
Has-filter p [] x m = elim m [ ]
Has-filter p (y ∷ xs) x m = elim (Bool-cases (p y)) [
  | inl kept ↦ elim (subst (λ b. Has x (if b then y ∷ filter p xs else filter p xs)) kept m) [
    | inl here ↦ (inl here, subst (λ z. p z ≡ true) here kept)
    | inr later ↦ let (n, k) = Has-filter p xs x later in (inr n, k)
  ]
  | inr dropped ↦
      let (n, k) =
        Has-filter p xs x
          (subst (λ b. Has x (if b then y ∷ filter p xs else filter p xs)) dropped m) in
      (inr n, k)
]

pub Has-filter_of :
    {A : Type 0} (p : A → Bool) (xs : List A) (x : A) → Has x xs → p x ≡ true → Has x (filter p xs)
Has-filter_of p [] x m h = elim m [ ]
Has-filter_of p (y ∷ xs) x (inl e) h =
    if-split (Has x) (p y) (λ kept. inl e)
      (λ dropped. cc (dropped, subst (λ z. p z ≡ true) (sym e) h))
Has-filter_of p (y ∷ xs) x (inr m) h =
    if-either (Has x) (p y) (inr (Has-filter_of p xs x m h)) (Has-filter_of p xs x m h)

-- The definition of a check by its id.
abbrev pub check_named : String → CheckDefinition
check_named id = elim (find (λ d. d.check_id == id) rubric_checks) [
  | some d ↦ d
  | none ↦ record { check_id = ""; name = ""; severity_if_failed = advisory; rubric = "" }
]

is_empty-eq : {A : Type 0} (xs : List A) → is_empty xs ≡ true → xs ≡ []
is_empty-eq [] h = refl
is_empty-eq (x ∷ xs) h = cc

-- The blocking checks of an accepted plan find nothing.
pub accepted-nil :
    {A : Type 0} (p : Printing) (run : CheckDefinition → List CriticFinding) (errors : List A)
    (answer : Checked Json) (d : CheckDefinition)
    → is_accept (review p run errors answer).verdict ≡ true
    → Has d rubric_checks
    → is_blocking d.severity_if_failed ≡ true
    → run d ≡ []
unfolding is_acceptable is_clear
accepted-nil p run errors answer d h m b =
    let both = sym (review-verdict p run errors answer) ∙ h in
    let accepted =
      all-eq-true (λ e. not (is_blocking e.severity_if_failed) || is_clear run answer e)
        rubric_checks (ground (arith, both)) in
    let clear =
      All-at (λ e. (not (is_blocking e.severity_if_failed) || is_clear run answer e) ≡ true)
        rubric_checks accepted m in
    is_empty-eq (run d) (ground (arith, clear))
