-- ===== src/Tests/Samples.antt =====
-- A plan of two slices in two milestones, and stores whose tasks carry out that plan.
use pgloom_engineering.Base.{String, refl, true, none, some, List, [], ◌∷◌}
use pgloom_engineering.Base.Json.{null}
use pgloom_engineering.Settings.{default_settings}
use pgloom_engineering.Contracts.{
  DesignContract, MilestoneContract, TaskSliceContract, PlanContract, single, scrutiny_and_usertest,
}
use pgloom_engineering.Workflow.Texts.{Texts}
use pgloom_engineering.Workflow.Rows.{
  TaskState, queued, blocked, done, abandoned, FeatureGoalContract, TaskPayload, TaskRow,
  TaskContractRow, Store, Candidate, Report,
}
use pgloom_engineering.Workflow.Effects.{Runtime, Transitions, Enqueues, empty_payload}
use pgloom_engineering.Workflow.Run.{Driver}

abbrev pub design : DesignContract
design = record {
  public_api = "parse";
  ownership_boundaries = "core";
  concurrency_protocol = "one thread";
  persistence_protocol = "none";
  hard_constraints = [];
  forbidden_alternatives = [];
  acceptance_tests = "a1" ∷ [];
}

abbrev pub slice : String → String → String → String → List String → TaskSliceContract
slice id role task_type path deps = record {
  slice_id = id;
  role = role;
  task_type = task_type;
  objective = "build it";
  allowed_paths = path ∷ [];
  forbidden_paths = "docs" ∷ [];
  depends_on = deps;
  expected_outputs = "code" ∷ [];
  verification_commands = ("make" ∷ []) ∷ [];
  acceptance_assertion_ids = "a1" ∷ [];
  grading_criteria = [];
  validation_strategy = null;
  context_budget = none;
  model_route_hint = none;
  required_procedures = [];
  handoff_requirements = [];
  milestone_id = none;
}

abbrev pub author : TaskSliceContract
author = slice "s1" "qa" "engineering.qa.author" "tests/unit" []

abbrev pub coder : TaskSliceContract
coder = slice "s2" "implementer" "engineering.implement" "core" ("s1" ∷ [])

abbrev pub milestone : String → List String → List String → MilestoneContract
milestone id slices deps = record {
  milestone_id = id;
  name = "Milestone";
  slice_ids = slices;
  acceptance_assertions = "a1" ∷ [];
  validation_contract = null;
  depends_on = deps;
  signoff_policy = scrutiny_and_usertest;
}

abbrev pub plan_with : List MilestoneContract → PlanContract
plan_with milestones = record {
  contract_version = "1";
  feature_id = "f1";
  project = "demo";
  problem_statement = "parse input";
  assumptions = [];
  design_contract = design;
  affected_surfaces = "core" ∷ [];
  implementation_topology = single;
  task_slices = author ∷ coder ∷ [];
  acceptance_test_matrix = "a1" ∷ [];
  acceptance_assertions = "a1" ∷ [];
  milestones = milestones;
  risk_register = [];
  self_heal_policy = "retry";
  finalization_policy = "open_final_feature_pr_for_human_merge";
  council_reports = [];
  supersedes_plan_id = none;
  supersession_rationale = none;
}

abbrev pub plan : PlanContract
plan = plan_with (milestone "m1" ("s1" ∷ []) [] ∷ milestone "m2" ("s2" ∷ []) ("m1" ∷ []) ∷ [])

abbrev pub plan_payload : TaskPayload
plan_payload = record empty_payload { plan_contract_id = some "plan-1" }

abbrev pub task : String → String → String → TaskState → TaskRow
task id task_type slot state = record {
  id = id;
  task_type = task_type;
  slot = some slot;
  state = state;
  attempt = 1;
  max_attempts = 3;
  priority = 10;
  payload = some plan_payload;
  result = none;
  blocker_code = none;
  blocker_reason = none;
  terminal_reason = none;
  terminal_detail = none;
  lease_owner = none;
  lease_expires_at = none;
  updated_at = 5;
}

abbrev pub done_task : TaskRow
done_task = task "t1" "engineering.implement" "implementer" done

abbrev pub queued_task : TaskRow
queued_task = task "t2" "engineering.implement" "implementer" queued

abbrev pub set_aside_task : TaskRow
set_aside_task = record (task "t3" "engineering.review" "reviewer" abandoned) {
  terminal_reason = some "workflow_recovery_replan";
}

abbrev pub rejected_task : TaskRow
rejected_task = record (task "t4" "engineering.review" "reviewer" blocked) {
  blocker_code = some "engineering.review_rejected";
  blocker_reason = some "the parser loses input";
}

abbrev pub broken_task : TaskRow
broken_task = record (task "t5" "engineering.implement" "implementer" blocked) {
  blocker_code = some "engineering.implementation_verification_failed";
  blocker_reason = some "make failed";
}

abbrev pub goal : FeatureGoalContract
goal = record {
  project = "demo";
  goal = "a parser";
  requirements = [];
  constraints = [];
  acceptance_criteria = [];
}

abbrev pub contract_row : String → String → TaskContractRow
contract_row task_id slice_id = record {
  task_id = some task_id;
  task_slice_id = some slice_id;
  status = "ready";
  input_contract = none;
  output_contract = none;
}

abbrev pub store : List TaskRow → Store
store tasks = record {
  feature = some (record {
    id = "f1";
    state = "running";
    feature_goal_contract = some goal;
    agent_topology = none;
    project = none;
  });
  agent_topology = null;
  tasks = tasks;
  task_contracts = contract_row "t1" "s1" ∷ contract_row "t2" "s2" ∷ [];
  plan_contracts = record { id = some "plan-1"; active = true; contract = some plan } ∷ [];
  recovery_actions = [];
  operator_interventions =
      record { id = "i1"; action_type = "note"; milestone_id = some "m2"; reason = none } ∷ [];
  worker_runs = [];
  resource_locks = [];
  workers = [];
  input_tokens = [];
  now = 9;
}

abbrev pub candidate : TaskRow → Candidate
candidate t = record { task = t; recovery_attempt = 1 }

abbrev pub texts : Texts
texts = record {
  failure_context = λ t. "make: *** failed";
  gate_classification = λ t context. none;
  allocation_diagnosis = λ t context classification count. none;
  replan_summary = λ t count classification diagnosis. "repair it";
}

abbrev pub runtime : Runtime
runtime = record {
  enqueue_task = λ s task_type slot payload priority max_attempts.
      record (task "p1" task_type slot queued) { payload = some payload };
  transition_task = λ t state. record t { state = state };
}

pub transitions : Transitions runtime
transitions = record { state = λ t state. refl; id = λ t state. refl }

pub enqueues : Enqueues runtime
enqueues = record {
  state = λ s task_type slot payload priority max_attempts. refl;
  task_type = λ s task_type slot payload priority max_attempts. refl;
}

abbrev pub report : Report
report = record {
  slot = "implementer";
  claimed = true;
  status = "done";
  task_ids = [];
  task_type = none;
  replanned_from_task_id = none;
  operator_intervention_id = none;
  replan_from_milestone_id = none;
  superseded_task_ids = [];
}

abbrev pub driver : Driver
driver = record {
  texts = texts;
  runtime = runtime;
  settings = default_settings;
  rendering = record { numeral = λ n. "1"; instant = λ n. "noon"; dumps = λ fields. "{}" };
  worker = λ slot s. (s, report);
  lease_seconds = 60;
  recover_stale = true;
}
