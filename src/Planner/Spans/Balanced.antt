-- ===== src/Planner/Spans/Balanced.antt =====
-- The objects that the scanner of planner/json_tools.py finds, next to a grammar of them.
use mathlib.Core.List.{append_assoc, append-nil}
use pgloom_engineering.Base.{
  ℕ, suc, ◌≡◌, refl, sym, ap, ◌∙◌, false, true, some, none, List, [], ◌∷◌, ◌++◌, nat_eq, All, Bool,
  ◌-◌, ◌+◌, ◌&&◌, arith,
}
use pgloom_engineering.Planner.Spans.{Open, step_inside, step, scan, balanced_json_spans}

-- The text of a string literal between its quotes.
pub data Quoted : List ℕ → Type 0 where
  closed : Quoted []
  letter :
      (c : ℕ) (q : List ℕ)
      → nat_eq c b'"' ≡ false
      → nat_eq c b'\\' ≡ false
      → Quoted q
      → Quoted (c ∷ q)
  escape : (c : ℕ) (q : List ℕ) → Quoted q → Quoted (b'\\' ∷ c ∷ q)

-- The text of an object between its braces: braces outside of the string literals are balanced.
pub data Body : List ℕ → Type 0 where
  ended : Body []
  plain :
      (c : ℕ) (s : List ℕ)
      → nat_eq c b'"' ≡ false
      → nat_eq c b'{' ≡ false
      → nat_eq c b'}' ≡ false
      → Body s
      → Body (c ∷ s)
  literal : (q s : List ℕ) → Quoted q → Body s → Body (b'"' ∷ q ++ b'"' ∷ s)
  nested : (b s : List ℕ) → Body b → Body s → Body (b'{' ∷ b ++ b'}' ∷ s)

abbrev outside : List ℕ → ℕ → Open
outside inner depth = record { inner = inner; depth = depth; in_string = false; escaped = false }

abbrev within : List ℕ → ℕ → Open
within inner depth = record { inner = inner; depth = depth; in_string = true; escaped = false }

step_inside-letter :
    (c depth : ℕ) (inner : List ℕ)
    → nat_eq c b'"' ≡ false
    → nat_eq c b'\\' ≡ false
    → step_inside c (within inner depth) ≡ (some (within (inner ++ c ∷ []) depth), none)
unfolding step_inside
step_inside-letter c depth inner quote slash = rw (slash, quote) refl

and-false : (b : Bool) → (b && false) ≡ false
and-false b = ground arith

step_inside-plain :
    (c depth : ℕ) (inner : List ℕ)
    → nat_eq c b'"' ≡ false
    → nat_eq c b'{' ≡ false
    → nat_eq c b'}' ≡ false
    → step_inside c (outside inner depth) ≡ (some (outside (inner ++ c ∷ []) depth), none)
unfolding step_inside
step_inside-plain c depth inner quote opens closes =
    rw (and-false (nat_eq c b'\\'), quote, opens, closes) refl

-- The objects found are the same however the characters read were bracketed.
rebracket :
    (state : List ℕ → Open) (inner read more rest : List ℕ)
    → scan (some (state ((inner ++ read) ++ more))) rest
      ≡ scan (some (state (inner ++ (read ++ more)))) rest
rebracket state inner read more rest =
    ap (λ i. scan (some (state i)) rest) (append_assoc inner read more)

scan-Quoted :
    (q rest inner : List ℕ) (depth : ℕ)
    → Quoted q
    → scan (some (within inner depth)) (q ++ rest) ≡ scan (some (within (inner ++ q) depth)) rest
unfolding scan step_inside
scan-Quoted q rest inner depth closed =
    ap (λ i. scan (some (within i depth)) rest) (sym (append-nil inner))
scan-Quoted q rest inner depth (letter c q' quote slash l) =
    rw (step_inside-letter c depth inner quote slash) (
      scan-Quoted q' rest (inner ++ c ∷ []) depth l
      ∙ rebracket (λ i. within i depth) inner (c ∷ []) q' rest)
scan-Quoted q rest inner depth (escape c q' l) =
    scan-Quoted q' rest ((inner ++ b'\\' ∷ []) ++ c ∷ []) depth l
    ∙ rebracket (λ i. within i depth) (inner ++ b'\\' ∷ []) (c ∷ []) q' rest
    ∙ rebracket (λ i. within i depth) inner (b'\\' ∷ []) (c ∷ q') rest

-- The characters read, an opening and a closing one with a text between them, and then more.
enclosed :
    (inner q s : List ℕ) (c d : ℕ)
    → (((inner ++ c ∷ []) ++ q) ++ d ∷ []) ++ s ≡ inner ++ (c ∷ q ++ d ∷ s)
enclosed inner q s c d =
    append_assoc ((inner ++ c ∷ []) ++ q) (d ∷ []) s
    ∙ append_assoc (inner ++ c ∷ []) q (d ∷ s)
    ∙ append_assoc inner (c ∷ []) (q ++ d ∷ s)

still_deep : (n : ℕ) → nat_eq (suc (suc n) - 1) 0 ≡ false
still_deep n = ground arith

one_less : (n : ℕ) → suc (suc n) - 1 ≡ suc n
one_less n = omega arith

one_more : (n : ℕ) → suc n + 1 ≡ suc (suc n)
one_more n = omega arith

-- An opening brace of an inner object.
scan-open :
    (n : ℕ) (inner rest : List ℕ)
    → scan (some (outside inner (suc n))) (b'{' ∷ rest)
      ≡ scan (some (outside (inner ++ b'{' ∷ []) (suc (suc n)))) rest
unfolding scan step_inside
scan-open n inner rest = rw (one_more n) refl

-- A closing brace of an inner object.
scan-close :
    (n : ℕ) (inner rest : List ℕ)
    → scan (some (outside inner (suc (suc n)))) (b'}' ∷ rest)
      ≡ scan (some (outside (inner ++ b'}' ∷ []) (suc n))) rest
unfolding scan step_inside
scan-close n inner rest = rw (still_deep n, one_less n) refl

-- Within an object, the scanner reads its text and ends as deep as it began.
scan-Body :
    (b rest inner : List ℕ) (n : ℕ)
    → Body b
    → scan (some (outside inner (suc n))) (b ++ rest)
      ≡ scan (some (outside (inner ++ b) (suc n))) rest
unfolding scan step_inside
scan-Body b rest inner n ended =
    ap (λ i. scan (some (outside i (suc n))) rest) (sym (append-nil inner))
scan-Body b rest inner n (plain c s quote opens closes body) =
    rw (step_inside-plain c (suc n) inner quote opens closes) (
      scan-Body s rest (inner ++ c ∷ []) n body
      ∙ rebracket (λ i. outside i (suc n)) inner (c ∷ []) s rest)
scan-Body b rest inner n (literal q s l body) =
    ap (scan (some (within (inner ++ b'"' ∷ []) (suc n)))) (append_assoc q (b'"' ∷ s) rest)
    ∙ scan-Quoted q (b'"' ∷ s ++ rest) (inner ++ b'"' ∷ []) (suc n) l
    ∙ scan-Body s rest (((inner ++ b'"' ∷ []) ++ q) ++ b'"' ∷ []) n body
    ∙ ap (λ i. scan (some (outside i (suc n))) rest) (enclosed inner q s b'"' b'"')
scan-Body b rest inner n (nested b' s body body') =
    scan-open n inner ((b' ++ b'}' ∷ s) ++ rest)
    ∙ ap (scan (some (outside (inner ++ b'{' ∷ []) (suc (suc n)))))
        (append_assoc b' (b'}' ∷ s) rest)
    ∙ scan-Body b' (b'}' ∷ s ++ rest) (inner ++ b'{' ∷ []) (suc n) body
    ∙ scan-close n ((inner ++ b'{' ∷ []) ++ b') (s ++ rest)
    ∙ scan-Body s rest (((inner ++ b'{' ∷ []) ++ b') ++ b'}' ∷ []) n body'
    ∙ ap (λ i. scan (some (outside i (suc n))) rest) (enclosed inner b' s b'{' b'}')

-- Behind a text without an opening brace, the scanner is where it was before it.
scan-before :
    (before rest : List ℕ)
    → All (λ c. nat_eq c b'{' ≡ false) before
    → scan none (before ++ rest) ≡ scan none rest
unfolding scan step
scan-before [] rest h = refl
scan-before (c ∷ before) rest (other, h) = rw other (scan-before before rest h)

-- An object whose text between its braces is balanced outside of its string literals, behind a text
-- without an opening brace: _balanced_json_spans returns the object whole, whatever its literals
-- hold, and then the spans of the text behind it.
pub balanced_json_spans-object :
    (before body after : List ℕ)
    → All (λ c. nat_eq c b'{' ≡ false) before
    → Body body
    → balanced_json_spans (before ++ (b'{' ∷ body ++ b'}' ∷ after))
      ≡ (b'{' ∷ body ++ b'}' ∷ []) ∷ balanced_json_spans after
unfolding balanced_json_spans scan step step_inside
balanced_json_spans-object before body after h b =
    scan-before before (b'{' ∷ body ++ b'}' ∷ after) h ∙ scan-Body body (b'}' ∷ after) [] 0 b
