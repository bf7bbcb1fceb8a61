-- ===== src/Lib.antt =====
-- pgloom-engineering drives a software feature from a goal to a finished branch: a planner writes a
-- plan contract, the plan's slices become tasks of a Postgres queue, workers of several roles carry
-- them out, and a workflow driver dispatches the workers and recovers from failures.
--
-- The parts and their files:
--
--   * Contracts.antt: `PlanContract` and `validate_dependencies` of pgloom_engineering/contracts.py;
--     Contracts/Validation.antt: `validate_plan_contract` and the checks that it calls, with the
--     acceptance coverage in Contracts/Validation/Coverage.antt. The errors are a list, in the order
--     in which the source appends them.
--   * PathPolicy.antt: `is_qa_write_path` of pgloom_engineering/path_policy.py.
--   * Settings.antt: the settings of pgloom_engineering/config.py that the driver reads.
--   * Workflow/: pgloom_engineering/workflow_driver.py. Rows.antt has the rows of the database as one
--     store (`get_feature_aggregate` of pgloom_engineering/features.py reads it); Status.antt says
--     where a feature stands; Recovery.antt chooses the blocked task to recover; Repair.antt and
--     SameRole.antt are the four repairs, Replan.antt the corrective replan and the order in which
--     they are tried; Restore.antt, Stale.antt and Milestones.antt are the other steps of a round;
--     Run.antt is `run_workflow`, the loop that puts them together. A function keeps the source's
--     name without `_maybe_` and the leading underscore.
--   * Worker/: pgloom_engineering/worker.py. Signoff.antt says when a milestone is signed off and which
--     tasks it locks, Gate.antt is `_pre_execution_gate`, on a record of what the gate reads.
--     Claimed.antt is `run_once` from a claimed task on, PostGate.antt `_post_execution_gate` with
--     Outputs.antt, all over the desk of Desk.antt: the rows around one task.
--   * Planner/Critic/: pgloom_engineering/planner/critic.py. Rubric.antt has the checks by name,
--     Critic.antt reads a model's results, Review.antt sets them against the program's own and gives
--     verdict and score. Checks.antt and its children are `_run_deterministic_check`, with Paths.antt,
--     Commands.antt and PlanTexts.antt for paths, commands and texts and Dependencies.antt for the
--     search among dependencies.
--   * Planner/Spans.antt: `_balanced_json_spans` of pgloom_engineering/planner/json_tools.py.
--   * Base/: lists, texts, tests, code points and JSON values. Tests/: sample data and examples.
--
-- The planner's candidate is reviewed by the critic, and a plan is validated when it is stored. The
-- driver reads the store at the beginning of each round, takes the first step that applies (stale
-- workers, an operator's replan, a recovery, a restore), and otherwise returns a terminal status or
-- calls the worker for one ready slot after the other.
--
-- Representation. The state is passed on explicitly: a step takes the store and returns the one that
-- it leaves. A step that may not apply returns an `Option`, a validator that raises a `Checked`. A
-- JSON payload is a record of the keys that the program writes, with `none` for a key that is
-- missing. Instants are microseconds, and `now` is fixed within a store. `run_workflow` is recursion
-- on `max_steps` itself, so its fuel is the bound that the source has. The search among dependencies
-- has one unit of fuel more than there are dependencies to push, since it follows a slice only once.
-- `lower` covers ASCII and the two letters whose lower case is ASCII, since it is only searched for
-- ASCII words.
--
-- Parameters. `Runtime` stands for `enqueue_task` and `transition_task` of the task runtime, with the
-- laws `Transitions` and `Enqueues`; `Texts` for the texts that the driver renders from a failure;
-- `Rendering` for the standard library's numerals, instants and JSON; the worker of `run_workflow` is
-- any function on stores.
-- `TaskRuntime`, with the laws `Settles`, stands for the task runtime that the worker calls, the handler
-- of a task is any function on desks, and `Validators` are the `model_validate` of output models.
-- `Dumps` are the JSON dumps of a plan, which the critic searches, and the word characters of regular
-- expressions; `Printing` is Python's `str`.
--
-- Not modelled: reads and writes of the database beyond the rows above, rows that another session
-- has locked, times and metadata of worker runs, the claim of a task, the critic's prompt, the planner
-- council and its panel, the role handlers, the QA runtime, the command line and the dashboards.
pub mod Base
pub mod Contracts
pub mod PathPolicy
pub mod Planner
pub mod Settings
pub mod Workflow
pub mod Worker
pub mod Tests
