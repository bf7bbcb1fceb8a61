-- ===== src/Planner/Critic.antt =====
-- The review of a plan in planner/critic.py: a model's check results are read and set against the
-- results of the checks that the program runs itself.
pub mod Rubric
pub mod Paths
pub mod Commands
pub mod PlanTexts
pub mod Checks
pub mod Dependencies
pub mod Review
pub mod Answers
pub mod Accepting
pub mod Scores
use pgloom_engineering.Base.{
  ℕ, ◌+◌, ◌-◌, ◌*◌, String, ◌<>◌, Bool, true, false, not, ◌&&◌, ◌||◌, Option, none, some, List, [],
  ◌∷◌, ◌++◌, map, if◌then◌else◌, length, is_empty, filter, any, all, find, find_last, is_nonempty,
  leb, ◌==◌,
}
use pgloom_engineering.Base.Json.{
  Json, null, boolean, string, array, object, Items, nil, cons, Fields, end, field, get, is_truthy,
}
use pgloom_engineering.Contracts.{Checked, ok, value_error}
use Rubric.{
  Severity, blocking, advisory, is_blocking, CheckDefinition, rubric_checks, definition_of,
}

pub record CriticFinding : Type 0 where
  pub severity : Severity
  pub check_id : String
  pub code : String
  pub slice_id : Option String
  pub message : String

pub record CriticCheckResult : Type 0 where
  pub check_id : String
  pub name : String
  pub passed : Bool
  pub severity_if_failed : Severity
  pub findings : List CriticFinding

pub data Verdict : Type 0 where
  accept revise reject : Verdict

abbrev pub is_accept : Verdict → Bool
is_accept accept = true
is_accept _ = false

abbrev pub is_failed_blocking : CriticCheckResult → Bool
is_failed_blocking r = not r.passed && is_blocking r.severity_if_failed

abbrev pub is_failed_advisory : CriticCheckResult → Bool
is_failed_advisory r = not r.passed && not (is_blocking r.severity_if_failed)

-- The errors of the validator are read by their number only.
unfoldable pub compute_verdict : {A : Type 0} → List CriticCheckResult → List A → Verdict
compute_verdict results (e ∷ errors) = revise
compute_verdict results [] = if any is_failed_blocking results then revise else accept

-- `_finding`
unfoldable pub finding : CheckDefinition → String → String → Option String → CriticFinding
finding d code message slice_id = record {
  severity = d.severity_if_failed;
  check_id = d.check_id;
  code = code;
  slice_id = slice_id;
  message = message;
}

-- A failed result of a check, with one finding.
abbrev pub failed_with : CheckDefinition → String → String → CriticCheckResult
failed_with d code message = record {
  check_id = d.check_id;
  name = d.name;
  passed = false;
  severity_if_failed = d.severity_if_failed;
  findings = finding d code message none ∷ [];
}

infixl 10 ◌>>=◌
abbrev ◌>>=◌ : {A B : Type 0} → Option A → (A → Option B) → Option B
none >>= f = none
some a >>= f = f a

abbrev pub text_field : String → Fields → Option String
text_field key item = elim (get key item) [ some (string s) ↦ some s | _ ↦ none ]

-- An optional text of a model: absent, `null` or a text; anything else is refused.
abbrev optional_text_field : String → Fields → Option (Option String)
optional_text_field key item = elim (get key item) [
  | none ↦ some none
  | some null ↦ some none
  | some (string s) ↦ some (some s)
  | some _ ↦ none
]

abbrev severity_field : String → Fields → Option Severity
severity_field key item = elim (text_field key item) [
  | none ↦ none
  | some s ↦
      if s == "blocking" then some blocking else if s == "advisory" then some advisory else none
]

-- `CriticFinding.model_validate`
unfoldable pub parse_finding : Json → Option CriticFinding
parse_finding (object item) = do
  severity ← severity_field "severity" item
  check_id ← text_field "check_id" item
  code ← text_field "code" item
  slice_id ← optional_text_field "slice_id" item
  message ← text_field "message" item
  some (record {
    severity = severity;
    check_id = check_id;
    code = code;
    slice_id = slice_id;
    message = message;
  })
parse_finding _ = none

-- All items, or none when one is refused.
unfoldable pub parse_findings : Items → Option (List CriticFinding)
unfolding parse_finding
parse_findings nil = some []
parse_findings (cons item items) = do
  f ← parse_finding item
  rest ← parse_findings items
  some (f ∷ rest)

-- `item.get("findings")`, where anything but a list is the empty list
abbrev pub findings_of : Fields → Items
findings_of item = elim (get "findings" item) [ some (array items) ↦ items | _ ↦ nil ]

abbrev pub no_items : Items → Bool
no_items nil = true
no_items (cons _ _) = false

-- `item.get("passed") is False`
abbrev pub is_failing : Fields → Bool
is_failing item = elim (get "passed" item) [ some (boolean false) ↦ true | _ ↦ false ]

-- `bool(item.get("passed", not findings))`
abbrev pub is_passing : Fields → Bool → Bool
is_passing item default = elim (get "passed" item) [ none ↦ default | some v ↦ is_truthy v ]

-- The result of an item whose findings are read, or of one whose findings are malformed.
abbrev pub read_result : CheckDefinition → Bool → Option (List CriticFinding) → CriticCheckResult
read_result d passed (some findings) = record {
  check_id = d.check_id;
  name = d.name;
  passed = passed;
  severity_if_failed = d.severity_if_failed;
  findings = findings;
}
read_result d passed none =
    failed_with d "critic_malformed_check_result"
      ("Critic returned malformed result for " <> d.check_id <> ".")

-- One item of the model's list for a known check. The findings of a check that failed without any
-- are one finding that says so.
unfoldable pub normalize_item : CheckDefinition → Fields → CriticCheckResult
unfolding finding parse_findings
normalize_item d item =
    let findings = findings_of item in
    if is_failing item && no_items findings
    then failed_with d "critic_failed_check_without_finding"
        ("Critic failed " <> d.check_id <> " without details.")
    else read_result d (is_passing item (no_items findings)) (parse_findings findings)

-- The check that an item is about. What is not the id of a check of the rubric is skipped.
abbrev pub item_definition : Json → Option CheckDefinition
item_definition (object item) = elim (text_field "check_id" item) [
  | some check_id ↦ definition_of check_id
  | none ↦ none
]
item_definition _ = none

abbrev pub item_fields : Json → Fields
item_fields (object item) = item
item_fields _ = end

-- The results of the model's list, the entry of an id being its last.
unfoldable pub results_of_items : Items → List CriticCheckResult
unfolding normalize_item definition_of
results_of_items nil = []
results_of_items (cons item items) =
    let rest = results_of_items items in
    elim (item_definition item) [
      | some d ↦ normalize_item d (item_fields item) ∷ rest
      | none ↦ rest
    ]

abbrev pub items_of : Option Json → Items
items_of value = elim value [ some (array items) ↦ items | _ ↦ nil ]

unfoldable pub result_of : String → List CriticCheckResult → Option CriticCheckResult
result_of check_id results = find_last (λ r. r.check_id == check_id) results

-- A check that the model does not mention has failed.
unfoldable pub or_unevaluated : List CriticCheckResult → CheckDefinition → CriticCheckResult
unfolding result_of finding
or_unevaluated results d = elim (result_of d.check_id results) [
  | some r ↦ r
  | none ↦
      failed_with d "critic_did_not_evaluate_check"
        ("Critic did not evaluate " <> d.check_id <> ".")
]

unfoldable pub normalize_check_results : Option Json → List CriticCheckResult
unfolding results_of_items or_unevaluated
normalize_check_results value =
    map (or_unevaluated (results_of_items (items_of value))) rubric_checks
