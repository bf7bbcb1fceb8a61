-- ===== src/Contracts/Validation/Coverage.antt =====
-- Acceptance coverage of contracts.py: the checks that every assertion is claimed by a slice and every
-- claim is an assertion. Both are matched by their canonical ids, the text in front of the first colon.
use pgloom_engineering.Base.{
  ℕ, String, ◌<>◌, Bool, not, List, [], ◌∷◌, ◌++◌, map, if◌then◌else◌, is_empty, filter, any, join,
}
use Prim.Native.String.{compare}
use text.Mathlib.Text.{is_le}
use pgloom_engineering.Base.Codes.{codes, strip, before_colon, same_codes}
use pgloom_engineering.Contracts.{MilestoneContract, TaskSliceContract, PlanContract}
use pgloom_engineering.Contracts.Errors.{ContractError, error_when}

unfoldable pub canonical_acceptance_assertion_id : String → List ℕ
unfolding strip before_colon
canonical_acceptance_assertion_id assertion = strip (before_colon (codes assertion))

-- A dict from canonical ids to the assertion last seen with the id.
abbrev pub Labels : Type 0
Labels = List (List ℕ × String)

unfoldable pub put_label : String → Labels → Labels
unfolding canonical_acceptance_assertion_id same_codes
put_label assertion [] = (canonical_acceptance_assertion_id assertion, assertion) ∷ []
put_label assertion ((id, old) ∷ rest) =
    let later = put_label assertion rest in
    if same_codes id (canonical_acceptance_assertion_id assertion)
    then (id, assertion) ∷ rest
    else (id, old) ∷ later

unfoldable pub put_labels : List String → Labels → Labels
unfolding put_label
put_labels [] labels = labels
put_labels (a ∷ assertions) labels = put_labels assertions (put_label a labels)

unfoldable pub has_id : Labels → List ℕ → Bool
unfolding same_codes
has_id labels id = any (λ entry. same_codes entry.0 id) labels

unfoldable pub milestone_labels : List MilestoneContract → Labels → Labels
unfolding put_labels
milestone_labels [] labels = labels
milestone_labels (m ∷ rest) labels =
    milestone_labels rest (put_labels m.acceptance_assertions labels)

unfoldable pub assertion_labels : PlanContract → Labels
unfolding milestone_labels
assertion_labels p = milestone_labels p.milestones (put_labels p.acceptance_assertions [])

unfoldable pub claims_of : List TaskSliceContract → Labels → Labels
unfolding put_labels
claims_of [] labels = labels
claims_of (s ∷ rest) labels = claims_of rest (put_labels s.acceptance_assertion_ids labels)

unfoldable pub unclaiming_errors : List TaskSliceContract → List ContractError
unfolding error_when
unclaiming_errors [] = []
unclaiming_errors (s ∷ rest) =
    error_when (is_empty s.acceptance_assertion_ids) "slice_missing_acceptance_assertion"
      (s.slice_id <> " must claim at least one acceptance assertion.")
    ++ unclaiming_errors rest

unfoldable pub insert_sorted : String → List String → List String
insert_sorted s [] = s ∷ []
insert_sorted s (t ∷ ts) =
    let later = insert_sorted s ts in if is_le (compare s t) then s ∷ t ∷ ts else t ∷ later

unfoldable pub sorted : List String → List String
unfolding insert_sorted
sorted [] = []
sorted (s ∷ ss) = insert_sorted s (sorted ss)

-- `sorted(a[id] for id in a.keys() - b.keys())`
unfoldable pub labels_outside : Labels → Labels → List String
unfolding has_id sorted
labels_outside labels others =
    sorted (map (λ entry. entry.1) (filter (λ entry. not (has_id others entry.0)) labels))

unfoldable pub validate_acceptance_assertion_coverage : PlanContract → List ContractError
unfolding assertion_labels claims_of unclaiming_errors labels_outside
validate_acceptance_assertion_coverage p =
    let labels = assertion_labels p in
    let claims = claims_of p.task_slices [] in
    let missing = labels_outside labels claims in
    let unknown = labels_outside claims labels in
    if is_empty labels
    then []
    else unclaiming_errors p.task_slices
      ++ (error_when (not (is_empty missing)) "acceptance_assertion_unclaimed"
            ("Acceptance assertions have no claiming slice: " <> join ", " missing <> ".")
          ++ error_when (not (is_empty unknown)) "acceptance_assertion_unknown"
              ("Slices claim unknown acceptance assertions: " <> join ", " unknown <> "."))
