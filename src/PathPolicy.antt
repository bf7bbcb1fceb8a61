-- ===== src/PathPolicy.antt =====
-- path_policy.py: which paths the QA roles may write. A path is the list of its code points.
use mathlib.Core.List.{reverse}
use pgloom_engineering.Base.{
  ℕ, String, Bool, true, false, ◌&&◌, ◌||◌, List, [], ◌∷◌, ◌++◌, map, leb, nat_eq, if◌then◌else◌,
  length, is_empty, any, filter, not,
}
use pgloom_engineering.Base.Codes.{
  codes, strip, drop_while_end, is_prefix, is_infix, is_suffix, same_codes,
}

abbrev pub default_qa_write_paths : List String
default_qa_write_paths = "tests/" ∷ "qa/fixtures/" ∷ []

-- `stripped.rstrip("/") + "/"`, or the empty text for the whole tree.
unfoldable pub normalize_path_prefix : List ℕ → List ℕ
unfolding strip drop_while_end same_codes
normalize_path_prefix path =
    let stripped = strip path in
    if is_empty stripped || same_codes stripped (b'.' ∷ [])
    then []
    else drop_while_end (λ c. nat_eq c b'/') stripped ++ b'/' ∷ []

-- `s.split("/")`: the parts before the first `/` come as `current` grows.
unfoldable pub split_slash : List ℕ → List ℕ → List (List ℕ)
split_slash current [] = current ∷ []
split_slash current (c ∷ s) = elim (nat_eq c b'/') [
  | true ↦ current ∷ split_slash [] s
  | false ↦ split_slash (current ++ c ∷ []) s
]

-- `[part for part in s.split("/") if part]`
unfoldable pub parts_of : List ℕ → List (List ℕ)
unfolding split_slash
parts_of s = filter (λ part. not (is_empty part)) (split_slash [] s)

-- `parts[-len(last):] == last`
unfoldable pub ends_with_parts : List (List ℕ) → List String → Bool
unfolding same_codes
ends_with_parts parts [] = true
ends_with_parts [] (l ∷ last) = false
ends_with_parts (p ∷ parts) (l ∷ last) = same_codes p (codes l) && ends_with_parts parts last

-- The roots that are recognised wherever they stand in the path.
unfoldable pub is_test_root : List ℕ → Bool
unfolding parts_of ends_with_parts is_prefix is_infix is_suffix
is_test_root normalized =
    let parts = parts_of normalized in
    let backwards = reverse parts in
    (leb 3 (length parts) && ends_with_parts backwards ("test" ∷ "src" ∷ []))
    || (leb 3 (length parts) && ends_with_parts backwards ("java" ∷ "test" ∷ "src" ∷ []))
    || (is_suffix (codes "/src/test/") normalized || is_infix (codes "/src/test/") normalized)
    || (is_suffix (codes "/src/jmh/") normalized || is_infix (codes "/src/jmh/") normalized)
    || (is_prefix (codes "ui/tests/") normalized || is_infix (codes "/ui/tests/") normalized)

unfoldable pub is_qa_write_path : String → List String → Bool
unfolding normalize_path_prefix is_test_root
is_qa_write_path path qa_write_paths =
    let normalized = normalize_path_prefix (codes path) in
    let configured = default_qa_write_paths ++ qa_write_paths in
    let prefixes = map (λ item. normalize_path_prefix (codes item)) configured in
    any (λ prefix. not (is_empty prefix) && is_prefix prefix normalized) prefixes
    || is_test_root normalized
