-- ===== src/Planner/Critic/Commands.antt =====
-- The classes of verification commands in planner/critic.py.
use pgloom_engineering.Base.{
  ℕ, String, Bool, false, not, ◌&&◌, ◌||◌, List, [], ◌∷◌, ◌++◌, if◌then◌else◌, any, filter, join,
}
use pgloom_engineering.Base.Codes.{
  codes, is_space, same_codes, is_prefix, is_infix, is_suffix, lower, mentions_any,
}

unfoldable pub command_text : List String → List ℕ
unfolding join
command_text command = codes (join " " command)

abbrev add_word : List ℕ → List (List ℕ) → List (List ℕ)
add_word [] words = words
add_word (c ∷ word) words = (c ∷ word) ∷ words

-- `s.split()`, the word so far first
unfoldable pub split_words : List ℕ → List ℕ → List (List ℕ)
unfolding is_space
split_words word [] = add_word word []
split_words word (c ∷ s) =
    let ended = split_words [] s in
    let going = split_words (word ++ c ∷ []) s in if is_space c then add_word word ended else going

-- `s in {…}`
abbrev is_one_of : List String → List ℕ → Bool
is_one_of words s = any (λ w. same_codes (codes w) s) words

unfoldable pub is_feature_lint_command : List ℕ → Bool
unfolding lower mentions_any
is_feature_lint_command command =
    mentions_any
      ("checkstyle" ∷ "spotbugs" ∷ "pmd" ∷ "ktlint" ∷ " detekt" ∷ ":detekt" ∷ "eslint" ∷ "ruff"
        ∷ "clippy" ∷ "golangci-lint" ∷ [])
      (lower command)

unfoldable pub is_feature_build_command : List ℕ → Bool
unfolding lower mentions_any is_infix
is_feature_build_command command =
    let lowered = lower command in
    (is_infix (codes "gradlew") lowered
      && mentions_any (":compile" ∷ " compile" ∷ "assemble" ∷ ":classes" ∷ []) lowered)
    || mentions_any
        ("mvn -q -dskiptests compile" ∷ "cargo build" ∷ "go test -run '^$'" ∷ "tsc "
          ∷ "npm run build" ∷ [])
        lowered

unfoldable pub is_feature_test_command : List ℕ → Bool
unfolding lower mentions_any is_infix is_suffix
is_feature_test_command command =
    let lowered = lower command in
    (is_infix (codes "gradlew") lowered
      && ((mentions_any (":test" ∷ " test " ∷ []) lowered || is_suffix (codes " test") lowered)
          && mentions_any ("--tests" ∷ "testsingle" ∷ ".test" ∷ []) lowered))
    || mentions_any ("pytest " ∷ "pytest\t" ∷ "vitest" ∷ "jest " ∷ "go test ./" ∷ "cargo test" ∷ [])
        lowered

abbrev is_gradle_option : List ℕ → Bool
is_gradle_option part =
    is_one_of ("--no-daemon" ∷ "--console=plain" ∷ "--console" ∷ "plain" ∷ []) part

abbrev is_gradle : List ℕ → Bool
is_gradle part = is_one_of ("./gradlew" ∷ "gradlew" ∷ []) part

abbrev is_test_target : List ℕ → Bool
is_test_target part =
    is_one_of ("test" ∷ "check" ∷ []) part
    || (is_suffix (codes ":test") part || is_suffix (codes ":check") part)

-- The parts of a gradle command, its program first, ask for tests or checks.
unfoldable pub is_gradle_test : List (List ℕ) → Bool
unfolding same_codes is_prefix is_suffix
is_gradle_test [] = false
is_gradle_test (program ∷ parts) =
    is_gradle program
    && any is_test_target
        (filter (λ part. not (is_gradle_option part) && not (is_prefix (codes "-p") part)) parts)

unfoldable pub is_deterministic_usertest_command : List ℕ → Bool
unfolding lower mentions_any split_words is_gradle_test
is_deterministic_usertest_command command =
    let lowered = lower command in
    mentions_any ("jmh" ∷ "pytest" ∷ "vitest" ∷ "jest " ∷ "go test" ∷ "cargo test" ∷ []) lowered
    || is_gradle_test (split_words [] lowered)

abbrev is_bare_target : List (List ℕ) → Bool
is_bare_target (target ∷ []) = is_one_of ("check" ∷ "test" ∷ []) target
is_bare_target _ = false

unfoldable pub is_bare_gradle : List (List ℕ) → Bool
unfolding same_codes
is_bare_gradle [] = false
is_bare_gradle (program ∷ parts) =
    is_gradle program && is_bare_target (filter (λ part. not (is_gradle_option part)) parts)

unfoldable pub is_bare_gradle_project_gate : List ℕ → Bool
unfolding is_infix split_words is_bare_gradle
is_bare_gradle_project_gate command =
    is_infix (codes "qa/smoke.sh") command || is_bare_gradle (split_words [] command)

unfoldable pub is_broad_usertest_gate : List ℕ → Bool
unfolding mentions_any is_suffix is_deterministic_usertest_command is_bare_gradle_project_gate
is_broad_usertest_gate command =
    mentions_any
      ("qa/smoke.sh" ∷ "qa/regression.sh" ∷ ":benchmarks:jmhSmokeCheck" ∷ ":benchmarks:jmh " ∷ [])
      command
    || (is_suffix (codes ":benchmarks:jmh") command
        || (is_deterministic_usertest_command command || is_bare_gradle_project_gate command))

unfoldable pub is_feature_benchmark_smoke_command : List ℕ → Bool
unfolding lower mentions_any
is_feature_benchmark_smoke_command command =
    mentions_any
      (":benchmarks:jmhsmokecheck" ∷ "jmhsmokecheck" ∷ "benchmark-smoke" ∷ "benchmark smoke" ∷ [])
      (lower command)

-- The test of `_qa_verify_findings` for a periodic regression run
unfoldable pub is_periodic_regression : List ℕ → Bool
unfolding mentions_any is_suffix
is_periodic_regression command =
    mentions_any ("qa/regression.sh" ∷ ":benchmarks:jmh " ∷ []) command
    || is_suffix (codes ":benchmarks:jmh") command
