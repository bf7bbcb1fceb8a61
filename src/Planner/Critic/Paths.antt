-- ===== src/Planner/Critic/Paths.antt =====
-- The path tests of planner/critic.py.
use pgloom_engineering.Base.{
  ℕ, String, Bool, ◌||◌, List, [], ◌∷◌, ◌++◌, if◌then◌else◌, is_empty, any, nat_eq,
}
use pgloom_engineering.Base.Codes.{
  codes, strip, drop_while_end, same_codes, is_prefix, is_infix, is_suffix, lower,
}

unfoldable pub normalize_path : List ℕ → List ℕ
unfolding strip drop_while_end same_codes
normalize_path path =
    let stripped = strip path in
    if is_empty stripped || same_codes stripped (codes ".")
    then []
    else drop_while_end (nat_eq b'/') stripped ++ b'/' ∷ []

unfoldable pub path_overlaps : String → String → Bool
unfolding normalize_path is_prefix
path_overlaps left right =
    let left_normalized = normalize_path (codes left) in
    let right_normalized = normalize_path (codes right) in
    is_prefix right_normalized left_normalized || is_prefix left_normalized right_normalized

unfoldable pub paths_overlap : List String → List String → Bool
unfolding path_overlaps
paths_overlap left right = any (λ l. any (λ r. path_overlaps l r) right) left

unfoldable pub is_source_path : String → Bool
unfolding normalize_path lower is_infix is_suffix
is_source_path path =
    let normalized = lower (normalize_path (codes path)) in
    is_infix (codes "/src/main/") normalized || is_suffix (codes "/src/main/") normalized

unfoldable pub is_test_or_benchmark_path : String → Bool
unfolding normalize_path lower is_infix is_suffix is_prefix
is_test_or_benchmark_path path =
    let normalized = lower (normalize_path (codes path)) in
    is_infix (codes "/src/test/") normalized
    || (is_suffix (codes "/src/test/") normalized
        || (is_prefix (codes "tests/") normalized
            || (is_prefix (codes "qa/") normalized || is_infix (codes "benchmark") normalized)))

unfoldable pub is_docs_or_memory_path : String → Bool
unfolding normalize_path lower is_prefix
is_docs_or_memory_path path =
    let normalized = lower (normalize_path (codes path)) in
    is_prefix (codes "docs/") normalized || is_prefix (codes "repo-memory/") normalized

unfoldable pub looks_like_benchmark_root : String → Bool
unfolding lower is_infix
looks_like_benchmark_root path =
    let lowered = lower (codes path) in
    is_infix (codes "benchmark") lowered
    || (is_infix (codes "src/jmh") lowered || is_infix (codes "/jmh/") lowered)
