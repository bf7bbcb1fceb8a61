-- ===== src/Planner/Spans.antt =====
-- `_balanced_json_spans` of planner/json_tools.py: the stretches of a text that look like JSON
-- objects, by one pass over its characters.
pub mod Balanced
use pgloom_engineering.Base.{
  ℕ, suc, ◌-◌, ◌+◌, Bool, true, false, not, ◌&&◌, Option, none, some, List, [], ◌∷◌, ◌++◌,
  if◌then◌else◌, nat_eq,
}

-- The scanner within an object: the text behind its first brace, the braces still open, and whether
-- it is in a string and behind a backslash there.
pub record Open : Type 0 where
  pub inner : List ℕ
  pub depth : ℕ
  pub in_string : Bool
  pub escaped : Bool

abbrev pub with_char : ℕ → Open → Open
with_char c o = record o { inner = o.inner ++ c ∷ [] }

abbrev pub span_of : Open → ℕ → List ℕ
span_of o c = b'{' ∷ o.inner ++ c ∷ []

-- The state behind a closing brace, and the object that it closes.
abbrev pub close : ℕ → Open → Option Open × Option (List ℕ)
close c o =
    if nat_eq (o.depth - 1) 0
    then (none, some (span_of o c))
    else (some (record (with_char c o) { depth = o.depth - 1 }), none)

unfoldable pub step_inside : ℕ → Open → Option Open × Option (List ℕ)
step_inside c o =
    if o.escaped
    then (some (record (with_char c o) { escaped = false }), none)
    else if nat_eq c b'\\' && o.in_string
    then (some (record (with_char c o) { escaped = true }), none)
    else if nat_eq c b'"'
    then (some (record (with_char c o) { in_string = not o.in_string }), none)
    else if o.in_string
    then (some (with_char c o), none)
    else if nat_eq c b'{'
    then (some (record (with_char c o) { depth = o.depth + 1 }), none)
    else if nat_eq c b'}'
    then close c o
    else (some (with_char c o), none)

unfoldable pub step : ℕ → Option Open → Option Open × Option (List ℕ)
unfolding step_inside
step c none =
    if nat_eq c b'{'
    then (some (record { inner = []; depth = 1; in_string = false; escaped = false }), none)
    else (none, none)
step c (some o) = step_inside c o

abbrev pub emit : Option (List ℕ) → List (List ℕ) → List (List ℕ)
emit none spans = spans
emit (some span) spans = span ∷ spans

unfoldable pub scan : Option Open → List ℕ → List (List ℕ)
unfolding step
scan state [] = []
scan state (c ∷ s) = let (next, span) = step c state in emit span (scan next s)

unfoldable pub balanced_json_spans : List ℕ → List (List ℕ)
unfolding scan
balanced_json_spans text = scan none text
