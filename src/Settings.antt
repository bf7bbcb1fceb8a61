-- ===== src/Settings.antt =====
-- The settings of config.py that the workflow driver reads, with their defaults.
use pgloom_engineering.Base.{ℕ, String, List, [], ◌∷◌}

pub record Settings : Type 0 where
  pub workflow_replan_after_blocked_attempts : ℕ
  pub workflow_replan_after_input_tokens : ℕ
  pub workflow_same_role_repair_blocker_codes : List String
  pub workflow_replan_immediate_blocker_codes : List String
  pub workflow_replan_blocker_codes : List String

abbrev pub same_role_repair_blocker_codes : List String
same_role_repair_blocker_codes =
    "engineering.qa_semantic_quality_failed" ∷ "engineering.qa_tests_do_not_compile"
    ∷ "engineering.qa_tests_not_red" ∷ "engineering.qa_no_changes"
    ∷ "engineering.implementer_contract_invalid" ∷ "engineering.implementation_path_violation"
    ∷ "engineering.implementation_verification_failed" ∷ "engineering.worker_crash" ∷ []

abbrev pub replan_immediate_blocker_codes : List String
replan_immediate_blocker_codes =
    "engineering.qa_path_violation" ∷ "engineering.qa_no_changes"
    ∷ "engineering.task_contract_missing" ∷ "engineering.active_plan_missing"
    ∷ "engineering.milestone_locked" ∷ "engineering.implementer_contract_invalid"
    ∷ "engineering.implementation_reported_blockers" ∷ "engineering.implementation_path_violation"
    ∷ "engineering.implementation_verification_failed" ∷ "engineering.invalid_handler_output"
    ∷ "engineering.plan_contract_invalid" ∷ "engineering.planner_council_exhausted"
    ∷ "engineering.handoff_missing" ∷ "engineering.qa_handoff_missing"
    ∷ "engineering.qa_usertest_contract_invalid" ∷ "engineering.review_rejected"
    ∷ "engineering.qa_verify_failed" ∷ "engineering.qa_usertest_failed" ∷ "engineering.worker_crash"
    ∷ []

abbrev pub replan_blocker_codes : List String
replan_blocker_codes =
    "engineering.qa_semantic_quality_failed" ∷ "engineering.qa_tests_do_not_compile"
    ∷ "engineering.qa_tests_not_red" ∷ "engineering.qa_author_contract_invalid"
    ∷ "engineering.qa_no_changes" ∷ "engineering.qa_path_violation"
    ∷ "engineering.implementer_contract_invalid" ∷ "engineering.implementation_reported_blockers"
    ∷ "engineering.implementation_path_violation" ∷ "engineering.implementation_verification_failed"
    ∷ "engineering.invalid_handler_output" ∷ "engineering.plan_contract_invalid"
    ∷ "engineering.planner_council_exhausted" ∷ "engineering.handoff_missing"
    ∷ "engineering.qa_handoff_missing" ∷ "engineering.review_rejected"
    ∷ "engineering.review_contract_invalid" ∷ "engineering.qa_verify_failed"
    ∷ "engineering.qa_usertest_contract_invalid" ∷ "engineering.qa_usertest_failed"
    ∷ "engineering.worker_crash" ∷ []

abbrev pub default_settings : Settings
default_settings = record {
  workflow_replan_after_blocked_attempts = 3;
  workflow_replan_after_input_tokens = 750_000;
  workflow_same_role_repair_blocker_codes = same_role_repair_blocker_codes;
  workflow_replan_immediate_blocker_codes = replan_immediate_blocker_codes;
  workflow_replan_blocker_codes = replan_blocker_codes;
}
