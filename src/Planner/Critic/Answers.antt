-- ===== src/Planner/Critic/Answers.antt =====
-- The check results that a model gives, under the ids and severities of the rubric.
use pgloom_engineering.Base.{
  String, ◌≡◌, refl, sym, ap, ◌∙◌, Bool, true, false, not, ◌&&◌, Option, none, some, List, [], ◌∷◌,
  map, arith, any, Has, inl, inr, subst, All, All-at, find-Has, find_last-Has, find_last-eq-some,
  Option-cases, if-either, ◌==◌, eq_refl, eq-of_eq,
}
use pgloom_engineering.Base.Json.{
  Json, Items, nil, cons, Fields, null, boolean, number, string, array, object,
}
use pgloom_engineering.Planner.Critic.{
  CriticFinding, CriticCheckResult, result_of, or_unevaluated, results_of_items, normalize_item,
  item_definition, item_fields, text_field, read_result, findings_of, no_items, is_failing,
  is_passing, parse_findings,
}
use pgloom_engineering.Planner.Critic.Rubric.{CheckDefinition, rubric_checks, definition_of}

-- The result is of a check of the rubric and has its severity.
abbrev FromRubric : CriticCheckResult → Type 0
FromRubric r =
    (e : CheckDefinition) × (Has e rubric_checks
      × ((r.check_id ≡ e.check_id) × (r.severity_if_failed ≡ e.severity_if_failed)))

abbrev IsResultOf : CheckDefinition → CriticCheckResult → Type 0
IsResultOf d r = (r.check_id ≡ d.check_id) × (r.severity_if_failed ≡ d.severity_if_failed)

read_result-IsResultOf :
    (d : CheckDefinition) (passed : Bool) (o : Option (List CriticFinding))
    → IsResultOf d (read_result d passed o)
read_result-IsResultOf d passed none = (refl, refl)
read_result-IsResultOf d passed (some findings) = (refl, refl)

normalize_item-IsResultOf :
    (d : CheckDefinition) (item : Fields) → IsResultOf d (normalize_item d item)
unfolding normalize_item
normalize_item-IsResultOf d item =
    if-either (IsResultOf d) (is_failing item && no_items (findings_of item)) (refl, refl)
      (read_result-IsResultOf d (is_passing item (no_items (findings_of item)))
        (parse_findings (findings_of item)))

item_definition-Has :
    (item : Json) (d : CheckDefinition) → item_definition item ≡ some d → Has d rubric_checks
unfolding definition_of
item_definition-Has (object item) d h = elim (Option-cases (text_field "check_id" item)) [
  | inl absent ↦ cc (h, absent)
  | inr (id, found) ↦ find-Has (λ e. e.check_id == id) rubric_checks d (cc (h, found))
]
item_definition-Has null d h = cc
item_definition-Has (boolean b) d h = cc
item_definition-Has (number n) d h = cc
item_definition-Has (string s) d h = cc
item_definition-Has (array vs) d h = cc

results_of_items-FromRubric : (items : Items) → All FromRubric (results_of_items items)
unfolding results_of_items
results_of_items-FromRubric nil = tt
results_of_items-FromRubric (cons item items) = elim (Option-cases (item_definition item)) [
  | inl skipped ↦ rw (skipped, results_of_items, All) (results_of_items-FromRubric items)
  | inr (d, known) ↦
      rw (known, results_of_items, All)
        (
          (d, (item_definition-Has item d known, normalize_item-IsResultOf d (item_fields item))),
          results_of_items-FromRubric items,
        )
]

abbrev pub has_check : String → List CheckDefinition → Bool
has_check id ds = any (λ e. e.check_id == id) ds

abbrev pub distinct : List CheckDefinition → Bool
distinct [] = true
distinct (d ∷ ds) = not (has_check d.check_id ds) && distinct ds

pub rubric-distinct : distinct rubric_checks ≡ true
unfolding rubric_checks
rubric-distinct = refl

module _ (f : CheckDefinition → CriticCheckResult)
    (same : (d : CheckDefinition) → (f d).check_id ≡ d.check_id) where
  result_of-map_absent :
      (id : String) (ds : List CheckDefinition)
      → has_check id ds ≡ false
      → result_of id (map f ds) ≡ none
  unfolding result_of
  result_of-map_absent id [] h = refl
  result_of-map_absent id (d ∷ ds) h = ground (arith, result_of-map_absent id ds, same d)

  pub result_of-map :
      (ds : List CheckDefinition) (d : CheckDefinition)
      → distinct ds ≡ true
      → Has d ds
      → result_of d.check_id (map f ds) ≡ some (f d)
  unfolding result_of
  result_of-map [] d h m = elim m [ ]
  result_of-map (e ∷ ds) d h (inl s) =
      subst (λ x. result_of x.check_id (map f (e ∷ ds)) ≡ some (f x)) s
        (ground (arith, result_of-map_absent e.check_id ds, same e, eq_refl e.check_id))
  result_of-map (e ∷ ds) d h (inr m) = ground (arith, result_of-map ds d, m)

has_check_of-Has :
    (ds : List CheckDefinition) (d : CheckDefinition) → Has d ds → has_check d.check_id ds ≡ true
has_check_of-Has [] d m = elim m [ ]
has_check_of-Has (e ∷ ds) d (inl s) =
    rw (ap (λ x. x.check_id) s) (ground (arith, eq_refl d.check_id))
has_check_of-Has (e ∷ ds) d (inr m) = ground (arith, has_check_of-Has ds d m)

definition_unique :
    (ds : List CheckDefinition) (d e : CheckDefinition)
    → distinct ds ≡ true
    → Has d ds
    → Has e ds
    → d.check_id ≡ e.check_id
    → d ≡ e
definition_unique [] d e h m n s = elim m [ ]
definition_unique (c ∷ ds) d e h (inl i) (inl j) s = sym i ∙ j
definition_unique (c ∷ ds) d e h (inl i) (inr n) s =
    cc (has_check_of-Has ds e n, subst (λ x. x.check_id ≡ e.check_id) (sym i) s, h)
definition_unique (c ∷ ds) d e h (inr m) (inl j) s =
    cc (has_check_of-Has ds d m, subst (λ x. x.check_id ≡ d.check_id) (sym j) (sym s), h)
definition_unique (c ∷ ds) d e h (inr m) (inr n) s = ground (arith, definition_unique ds d e)

pub or_unevaluated-check_id :
    (results : List CriticCheckResult) (d : CheckDefinition)
    → (or_unevaluated results d).check_id ≡ d.check_id
unfolding or_unevaluated result_of
or_unevaluated-check_id results d = elim (Option-cases (result_of d.check_id results)) [
  | inl absent ↦ rw (absent, or_unevaluated) refl
  | inr (r, found) ↦
      rw (found, or_unevaluated)
        (eq-of_eq r.check_id d.check_id
          (find_last-eq-some (λ x. x.check_id == d.check_id) results r found))
]

-- A result that is found by its id has the severity of the check.
found_severity :
    (items : Items) (d : CheckDefinition) (r : CriticCheckResult)
    → Has d rubric_checks
    → result_of d.check_id (results_of_items items) ≡ some r
    → r.severity_if_failed ≡ d.severity_if_failed
unfolding result_of
found_severity items d r m found =
    let test = λ (x : CriticCheckResult). x.check_id == d.check_id in
    let results = results_of_items items in
    let (e, (n, (id, severity))) =
      All-at FromRubric results (results_of_items-FromRubric items)
        (find_last-Has test results r found) in
    let same = eq-of_eq r.check_id d.check_id (find_last-eq-some test results r found) in
    let unique = definition_unique rubric_checks e d rubric-distinct n m (sym id ∙ same) in
    severity ∙ ap (λ x. x.severity_if_failed) unique

pub or_unevaluated-severity :
    (items : Items) (d : CheckDefinition)
    → Has d rubric_checks
    → (or_unevaluated (results_of_items items) d).severity_if_failed ≡ d.severity_if_failed
unfolding or_unevaluated result_of
or_unevaluated-severity items d m =
    elim (Option-cases (result_of d.check_id (results_of_items items))) [
      | inl absent ↦ rw (absent, or_unevaluated) refl
      | inr (r, found) ↦ rw (found, or_unevaluated) (found_severity items d r m found)
    ]
