-- ===== src/Worker/Gate/Open.antt =====
-- What is known of a task that the gate lets through.
use pgloom_engineering.Base.{
  String, ◌==◌, ◌≡◌, refl, sym, subst, Bool, true, false, not, ◌&&◌, Option, none, some, arith,
  eq_iff, ◌⊎◌, inl, inr, eq-of_eq, is_nonempty,
}
use pgloom_engineering.Contracts.{PlanContract}
use pgloom_engineering.Workflow.Rows.{InputContract}
use pgloom_engineering.Worker.Signoff.{milestone_blocker}
use pgloom_engineering.Worker.Gate.{
  Reading, RoleGate, Block, refuse_when, refuse_with, role_gate_blocker, contract_gate, plan_gate,
  task_gate, refuse_disabled, Project, is_missing, has_reviewable_dependency_output,
  pre_execution_gate, project_unresolved, project_unregistered, project_disabled, unless_planner,
}

refuse_when-none :
    (b : Bool) (refusal : Block) (rest : Option Block)
    → refuse_when b refusal rest ≡ none
    → (b ≡ false) × (rest ≡ none)
refuse_when-none true refusal rest h = cc
refuse_when-none false refusal rest h = (refl, h)

refuse_with-none :
    (o : Option String) (code : String) (rest : Option Block)
    → refuse_with o code rest ≡ none
    → (o ≡ none) × (rest ≡ none)
refuse_with-none none code rest h = (refl, h)
refuse_with-none (some reason) code rest h = cc

-- The task has a contract for the active plan, its milestone is not locked, the lock of a user test
-- is free, and a review has something to look at.
abbrev pub MayRun : Reading → Type 0
MayRun g =
    (id : String) × (c : InputContract) × (expected : Option RoleGate) × (plan : PlanContract)
    × (g.task_contract ≡ some (id, c, expected))
    × (g.active_plan ≡ some (id, plan))
    × (role_gate_blocker g.project expected ≡ none)
    × (milestone_blocker g.signoffs g.rows plan c ≡ none)
    × ((g.task_type == "engineering.qa.verify.usertest" && not g.lock_free) ≡ false)
    × ((g.task_type == "engineering.review" && not (has_reviewable_dependency_output g c)) ≡ false)

holds : (b : Bool) → not b ≡ false → b ≡ true
holds true h = refl
holds false h = cc

same_id : (a b : String) → not (a == b) ≡ false → a ≡ b
same_id a b h = (eq_iff a b).0 (ground arith)

contract_gate-none :
    (g : Reading) (id : String) (c : InputContract) (expected : Option RoleGate) (plan_id : String)
    (plan : PlanContract)
    → g.task_contract ≡ some (id, c, expected)
    → g.active_plan ≡ some (plan_id, plan)
    → contract_gate g id c expected (plan_id, plan) ≡ none
    → MayRun g
unfolding contract_gate
contract_gate-none g id c expected plan_id plan ec ep h =
    let (current, h₁) = refuse_when-none _ _ _ h in
    let (role, h₂) = refuse_with-none _ _ _ h₁ in
    let (unlocked, h₃) = refuse_with-none _ _ _ h₂ in
    let (lock, h₄) = refuse_when-none _ _ _ h₃ in
    let (handoff, h₅) = refuse_when-none _ _ _ h₄ in
    (
      id,
      c,
      expected,
      plan,
      ec,
      subst (λ x. g.active_plan ≡ some (x, plan)) (sym (same_id id plan_id current)) ep,
      role,
      unlocked,
      lock,
      handoff,
    )

plan_gate-none :
    (g : Reading) (contract : Option (String × InputContract × Option RoleGate))
    (plan : Option (String × PlanContract))
    → g.task_contract ≡ contract
    → g.active_plan ≡ plan
    → plan_gate g contract plan ≡ none
    → MayRun g
plan_gate-none g none plan ec ep h = cc
plan_gate-none g (some contract) none ec ep h = cc
plan_gate-none g (some (id, c, expected)) (some (plan_id, plan)) ec ep h =
    contract_gate-none g id c expected plan_id plan ec ep h

task_gate-none : (g : Reading) → task_gate g ≡ none → (g.paused ≡ false) × MayRun g
unfolding task_gate
task_gate-none g h =
    let (running, h') = refuse_when-none _ _ _ h in
    (running, plan_gate-none g g.task_contract g.active_plan refl refl h')

-- The project of the task is registered and active, or is not registered, which its payload allows.
abbrev pub HasProject : Reading → Type 0
HasProject g =
    ((p : Project) × (g.project ≡ some p) × (p.state ≡ "active"))
    ⊎ ((g.project ≡ none) × (g.allow_unregistered_project ≡ true))

refuse_disabled-none :
    (g : Reading) (project : Option Project) (rest : Option Block)
    → g.project ≡ project
    → (is_missing project && not g.allow_unregistered_project) ≡ false
    → refuse_disabled g project rest ≡ none
    → HasProject g × (rest ≡ none)
refuse_disabled-none g none rest e known h = (inr (e, holds g.allow_unregistered_project known), h)
refuse_disabled-none g (some p) rest e known h =
    let (active, h') = refuse_when-none (not (p.state == "active")) (project_disabled g p) rest h in
    (inl (p, e, eq-of_eq p.state "active" (holds (p.state == "active") active)), h')

-- If the gate lets a task through that is no planner task, the task names a project, which is
-- registered and active, or is not registered with a payload that allows it; the feature is not
-- paused, the lock that a user-test verification needs is free, and the task has a contract for the
-- active plan whose role gate and milestone do not block it, and, for a review, a producer's handoff
-- or output.
pub pre_execution_gate-open :
    (g : Reading)
    → (g.task_type == "engineering.plan") ≡ false
    → pre_execution_gate g ≡ none
    → (is_nonempty g.project_name ≡ true) × HasProject g × (g.paused ≡ false) × MayRun g
unfolding pre_execution_gate
pre_execution_gate-open g other h =
    let (named, h₁) = refuse_when-none (not (is_nonempty g.project_name)) project_unresolved _ h in
    let (known, h₂) =
      refuse_when-none (is_missing g.project && not g.allow_unregistered_project)
        (project_unregistered g) _ h₁ in
    let (project, h₃) = refuse_disabled-none g g.project (unless_planner g) refl known h₂ in
    let (running, may) = task_gate-none g (rw other at h₃) in
    (holds (is_nonempty g.project_name) named, project, running, may)
