-- ===== src/Workflow/Texts.antt =====
-- The texts that the driver renders from a blocked task, which it puts into payloads and searches for
-- words. They are a parameter.
use pgloom_engineering.Base.{
  ℕ, String, Bool, not, ◌&&◌, Option, List, [], ◌∷◌, filter, is_nonempty, join, if◌then◌else◌,
}
use pgloom_engineering.Base.Json.{Json}
use pgloom_engineering.Base.Codes.{codes, lower, mentions_any}
use pgloom_engineering.Workflow.Rows.{TaskRow}

pub record Texts : Type 0 where
  -- `_failure_context`
  pub failure_context : TaskRow → String
  -- `_benchmark_gate_classification`, of the task and its failure context
  pub gate_classification : TaskRow → String → Option String
  -- `_benchmark_allocation_diagnosis`, with the classification and the repeat count
  pub allocation_diagnosis : TaskRow → String → Option String → ℕ → Option Json
  -- `_replan_summary`, with the repeat count, the classification and the diagnosis
  pub replan_summary : TaskRow → ℕ → Option String → Option Json → String

abbrev qa_signals : List String
qa_signals =
    "benchmarks/src/jmh" ∷ "benchmarks/build.gradle" ∷ "conformance-tests/src/test"
    ∷ "core/src/test" ∷ "store/src/test" ∷ "qa/fixtures" ∷ "fixture" ∷ "test harness"
    ∷ "script compile" ∷ "compile-time errors inside" ∷ "benchmark-smoke" ∷ "qa-authored" ∷ []

abbrev production_signals : List String
production_signals =
    "core/src/main" ∷ "store/src/main" ∷ "public prefix overload" ∷ "required public api"
    ∷ "required byte[]" ∷ "not implemented" ∷ "api shape" ∷ "production code" ∷ "production-code"
    ∷ []

unfoldable pub review_rejection_mentions_qa_owned_surface : String → Bool
unfolding lower mentions_any
review_rejection_mentions_qa_owned_surface context_text =
    mentions_any qa_signals (lower (codes context_text))

unfoldable pub review_rejection_mentions_production_surface : String → Bool
unfolding lower mentions_any
review_rejection_mentions_production_surface context_text =
    mentions_any production_signals (lower (codes context_text))

-- `" ".join(part for part in (reason, context) if part)`
unfoldable pub joined_context : String → String → String
unfolding join
joined_context reason context = join " " (filter is_nonempty (reason ∷ context ∷ []))

-- The role that repairs what the text is about.
unfoldable pub repair_task_type : String → String
unfolding review_rejection_mentions_qa_owned_surface review_rejection_mentions_production_surface
repair_task_type context_text =
    if review_rejection_mentions_qa_owned_surface context_text
      && not (review_rejection_mentions_production_surface context_text)
    then "engineering.qa.author"
    else "engineering.implement"
