-- ===== src/Planner/Critic/PlanTexts.antt =====
-- What planner/critic.py looks for in the texts of a plan. The dumps of a plan and its parts, and the
-- word characters of regular expressions, are parameters.
use pgloom_engineering.Base.{
  ℕ, String, Bool, true, false, not, ◌&&◌, ◌||◌, List, [], ◌∷◌, ◌++◌, any, filter, join,
  is_nonempty, flat_map,
}
use pgloom_engineering.Base.Json.{Json}
use pgloom_engineering.Base.Codes.{codes, is_prefix, is_infix, lower, mentions_any}
use pgloom_engineering.Contracts.{PlanContract, TaskSliceContract}
use pgloom_engineering.Planner.Critic.Paths.{looks_like_benchmark_root}

pub record Dumps : Type 0 where
  -- `json.dumps` of a plan without its council reports, of a slice, of a slice without spaces, and of
  -- a JSON value
  pub dump_plan : PlanContract → String
  pub dump_slice : TaskSliceContract → String
  pub dump_compact_slice : TaskSliceContract → String
  pub dump_json : Json → String
  -- `str` of a list of texts
  pub dump_command : List String → String
  -- `\\w` for one character
  pub is_word : ℕ → Bool

unfoldable pub plan_text : Dumps → PlanContract → List ℕ
plan_text d p = codes (d.dump_plan p)

unfoldable pub is_lifecycle_text : List ℕ → Bool
unfolding lower mentions_any
is_lifecycle_text text =
    mentions_any ("store" ∷ "restore" ∷ "persist" ∷ "resume" ∷ "snapshot" ∷ []) (lower text)

-- `_roadmap_dependency_findings` reports a finding.
unfoldable pub misses_roadmap_dependency : List ℕ → Bool
unfolding mentions_any
misses_roadmap_dependency text =
    mentions_any ("r-006" ∷ "replication" ∷ "standby" ∷ "r-004" ∷ "compression" ∷ "lz4" ∷ []) text
    && not (
        mentions_any
          ("r-002" ∷ "snapshot prerequisite" ∷ "blocked by snapshot" ∷ "blocked by r-002"
            ∷ "prerequisite blocker" ∷ [])
          text)

abbrev slice_parts : Dumps → TaskSliceContract → List String
slice_parts d s =
    s.objective
    ∷ join " " s.expected_outputs
    ∷ join " " s.grading_criteria
    ∷ d.dump_json s.validation_strategy
    ∷ []

unfoldable pub plan_semantic_text : Dumps → PlanContract → List ℕ
unfolding join
plan_semantic_text d p =
    let parts =
      p.problem_statement
      ∷ p.design_contract.public_api
      ∷ p.design_contract.ownership_boundaries
      ∷ p.design_contract.concurrency_protocol
      ∷ p.design_contract.persistence_protocol
      ∷ join " " p.design_contract.acceptance_tests
      ∷ join " " p.acceptance_test_matrix
      ∷ join " " p.risk_register
      ∷ [] in
    codes (join " " (filter is_nonempty (parts ++ flat_map (slice_parts d) p.task_slices)))

abbrev starts_other : Dumps → List ℕ → Bool
starts_other d [] = true
starts_other d (c ∷ s) = not (d.is_word c)

-- `s` starts with the word and does not go on with a word character.
unfoldable pub starts_word : Dumps → List ℕ → List ℕ → Bool
starts_word d [] s = starts_other d s
starts_word d (p ∷ ps) [] = false
starts_word d (p ∷ ps) (c ∷ s) = is_prefix (p ∷ []) (c ∷ []) && starts_word d ps s

-- `re.search(rf"\\b{word}\\b", s)` for a word of word characters; `inside` tells whether the character
-- before `s` is one.
unfoldable pub has_word : Dumps → List ℕ → Bool → List ℕ → Bool
unfolding starts_word
has_word d word inside [] = false
has_word d word inside (c ∷ s) =
    (not inside && starts_word d word (c ∷ s)) || has_word d word (d.is_word c) s

unfoldable pub hot_path_shared_api_requires_wrapper_coverage : Dumps → PlanContract → Bool
unfolding plan_semantic_text lower mentions_any has_word
hot_path_shared_api_requires_wrapper_coverage d p =
    let text = lower (plan_semantic_text d p) in
    mentions_any
      ("zero-allocation" ∷ "zero allocation" ∷ "hot-path" ∷ "hot path" ∷ "allocation gate"
        ∷ "alloc gate" ∷ [])
      text
    && (mentions_any
          ("interface" ∷ "shared api" ∷ "public api" ∷ "api contract" ∷ "api addition" ∷ []) text
        && not (
            any (λ term. has_word d (codes term) false text)
              ("wrapper" ∷ "wrappers" ∷ "decorator" ∷ "decorators" ∷ "adapter" ∷ "adapters"
                ∷ "delegating" ∷ "forwarding" ∷ [])))

unfoldable pub is_inventory_only : Dumps → TaskSliceContract → Bool
unfolding lower mentions_any is_infix
is_inventory_only d s =
    let text = lower (codes (d.dump_slice s)) in
    mentions_any ("prefix" ∷ "filter" ∷ "query" ∷ "route" ∷ "endpoint" ∷ []) text
    && (mentions_any
          ("overload present" ∷ "overload presence" ∷ "method present" ∷ "method exists"
            ∷ "route list" ∷ "build file string" ∷ "string-checking" ∷ [])
          text
        && not (is_infix (codes "matching") text && is_infix (codes "non-matching") text))

unfoldable pub qa_author_needs_benchmark_root : Dumps → TaskSliceContract → Bool
unfolding join lower mentions_any looks_like_benchmark_root
qa_author_needs_benchmark_root d s =
    let parts =
      s.objective ∷ s.expected_outputs
      ++ flat_map (λ c. d.dump_command c ∷ []) s.verification_commands
      ++ s.grading_criteria
      ++ s.required_procedures in
    mentions_any
      ("src/jmh" ∷ "benchmark file" ∷ "benchmark class" ∷ "benchmark stub" ∷ "benchmark source"
        ∷ "jmh file" ∷ "jmh class" ∷ "jmh stub" ∷ "jmh source" ∷ [])
      (lower (codes (join " " parts)))
    && not (any looks_like_benchmark_root s.allowed_paths)

unfoldable pub is_small_feature : PlanContract → Bool
unfolding join lower mentions_any
is_small_feature p =
    let parts =
      p.problem_statement
      ∷ p.design_contract.public_api
      ∷ join " " p.design_contract.acceptance_tests
      ∷ join " " p.acceptance_test_matrix
      ∷ [] in
    let text = lower (codes (join " " parts)) in
    not (mentions_any ("distributed" ∷ "replication" ∷ "snapshot" ∷ "restore" ∷ []) text)
    && mentions_any
        ("range-query" ∷ "range query" ∷ "config + diagnostics" ∷ "diagnostics parity"
          ∷ "yaml graph topology loader" ∷ "per-node metrics exporter" ∷ "json export"
          ∷ "visualizer" ∷ [])
        text

unfoldable pub requires_history_update : Dumps → PlanContract → Bool
unfolding plan_text lower mentions_any
requires_history_update d p =
    mentions_any ("decisions.md" ∷ "roadmap.md" ∷ "current_state.md" ∷ []) (lower (plan_text d p))
