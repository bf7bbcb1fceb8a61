-- ===== src/Worker/Signoff/Passing.antt =====
-- Which task contracts show that a validator passed a milestone, in terms of the rows alone.
use pgloom_engineering.Base.{
  String, ◌≡◌, refl, ap, ◌∙◌, ◌↔◌, inl, inr, true, Option, none, some, List, Any, IsLast, same_iff,
  eq_refl, both_iff, any_iff, find-reverse_iff, Option-cases, eq_iff, eq-of_eq,
}
use pgloom_engineering.Base.Json.{Json, Fields, object, string, get, is_text}
use pgloom_engineering.Contracts.{MilestoneContract}
use pgloom_engineering.Workflow.Rows.{InputContract, TaskContractRow}
use pgloom_engineering.Worker.Signoff.{
  has_slice, has_type, has_pass, verdict_of, is_passing_row, task_by_slice, validator_passed,
}

-- The contract of the row is for the slice, or of the task type.
abbrev pub ForSlice : String → TaskContractRow → Type 0
ForSlice slice_id row =
    (c : InputContract) × (row.input_contract ≡ some c) × (c.task_slice_id ≡ some slice_id)

abbrev pub OfType : String → TaskContractRow → Type 0
OfType task_type row =
    (c : InputContract) × (row.input_contract ≡ some c) × (c.task_type ≡ task_type)

-- The output of the row is a QA result with the verdict `pass`.
abbrev pub OutputPasses : TaskContractRow → Type 0
OutputPasses row =
    (output : Fields) × (result : Fields) × (row.output_contract ≡ some output)
    × (get "qa_result_contract" output ≡ some (object result))
    × (get "verdict" result ≡ some (string "pass"))

-- Some slice of the milestone has as its last row a completed one of the type, with a pass.
abbrev pub PassedBy : List TaskContractRow → MilestoneContract → String → Type 0
PassedBy rows m task_type =
    Any
      (λ slice_id.
        (row : TaskContractRow) × IsLast (ForSlice slice_id) rows row
        × (((row.status ≡ "completed") × OfType task_type row) × OutputPasses row))
      m.slice_ids

slice_named :
    (slice_id : String) (o : Option InputContract)
    → has_slice slice_id o ≡ true
    → (c : InputContract) × (o ≡ some c) × (c.task_slice_id ≡ some slice_id)
slice_named slice_id none h = cc
slice_named slice_id (some c) h = elim (Option-cases c.task_slice_id) [
  | inl e ↦ cc (rw e at h)
  | inr (s, e) ↦ (c, refl, e ∙ ap some (eq-of_eq s slice_id (rw e at h)))
]

has_slice_iff :
    (slice_id : String) (row : TaskContractRow)
    → (has_slice slice_id row.input_contract ≡ true) ↔ ForSlice slice_id row
has_slice_iff slice_id row = (
  slice_named slice_id row.input_contract,
  λ h. let (c, e, named) = h in rw (e, named) (eq_refl slice_id),
)

type_named :
    (task_type : String) (o : Option InputContract)
    → has_type task_type o ≡ true
    → (c : InputContract) × (o ≡ some c) × (c.task_type ≡ task_type)
type_named task_type none h = cc
type_named task_type (some c) h = (c, refl, eq-of_eq c.task_type task_type h)

has_type_iff :
    (task_type : String) (row : TaskContractRow)
    → (has_type task_type row.input_contract ≡ true) ↔ OfType task_type row
has_type_iff task_type row = (
  type_named task_type row.input_contract,
  λ h. let (c, e, named) = h in rw e ((eq_iff c.task_type task_type).1 named),
)

string-of_text : (w : Json) (t : String) → is_text w t ≡ true → w ≡ string t
unfolding is_text
string-of_text (string s) t h = ap string (eq-of_eq s t h)
string-of_text w t h = cc

pass-of_verdict :
    (v : Json)
    → verdict_of (some v) ≡ true
    → (result : Fields) × (v ≡ object result) × (get "verdict" result ≡ some (string "pass"))
pass-of_verdict (object result) h = elim (Option-cases (get "verdict" result)) [
  | inl e ↦ cc (rw (e, verdict_of) at h)
  | inr (w, e) ↦ (result, refl, e ∙ ap some (string-of_text w "pass" (rw (e, verdict_of) at h)))
]
pass-of_verdict v h = cc

pass-of_output :
    (o : Option Fields)
    → has_pass o ≡ true
    → (output : Fields) × (result : Fields) × (o ≡ some output)
      × (get "qa_result_contract" output ≡ some (object result))
      × (get "verdict" result ≡ some (string "pass"))
pass-of_output none h = cc
pass-of_output (some output) h = elim (Option-cases (get "qa_result_contract" output)) [
  | inl e ↦ cc (rw e at h)
  | inr (v, e) ↦
      let (result, same, passes) = pass-of_verdict v (rw e at h) in
      (output, result, refl, e ∙ ap some same, passes)
]

has_pass_iff : (row : TaskContractRow) → (has_pass row.output_contract ≡ true) ↔ OutputPasses row
unfolding is_text
has_pass_iff row = (
  pass-of_output row.output_contract,
  λ h. let (output, result, e, found, passes) = h in rw (e, found, passes, verdict_of) refl,
)

passing_iff :
    (task_type : String) (row : TaskContractRow)
    → (is_passing_row task_type (some row) ≡ true)
      ↔ (((row.status ≡ "completed") × OfType task_type row) × OutputPasses row)
passing_iff task_type row =
    both_iff _ _ _ _
      (both_iff _ _ _ _ (same_iff row.status "completed") (has_type_iff task_type row))
      (has_pass_iff row)

is_passing_row_iff :
    (task_type : String) (rows : List TaskContractRow) (slice_id : String)
    → (is_passing_row task_type (task_by_slice rows slice_id) ≡ true) ↔ (
        (row : TaskContractRow) × IsLast (ForSlice slice_id) rows row
        × (((row.status ≡ "completed") × OfType task_type row) × OutputPasses row))
unfolding task_by_slice
is_passing_row_iff task_type rows slice_id = (
  λ h. elim (Option-cases (task_by_slice rows slice_id)) [
    | inl e ↦ cc (rw e at h)
    | inr (row, e) ↦ (
      row,
      (find-reverse_iff _ _ (has_slice_iff slice_id) rows row).0 e,
      (passing_iff task_type row).0 (rw e at h),
    )
  ],
  λ h.
      let (row, last, passes) = h in
      rw ((find-reverse_iff _ _ (has_slice_iff slice_id) rows row).1 last)
        ((passing_iff task_type row).1 passes),
)

pub validator_passed_iff :
    (rows : List TaskContractRow) (m : MilestoneContract) (task_type : String)
    → (validator_passed rows m.slice_ids task_type ≡ true) ↔ PassedBy rows m task_type
unfolding validator_passed
validator_passed_iff rows m task_type = any_iff _ _ m.slice_ids (is_passing_row_iff task_type rows)
