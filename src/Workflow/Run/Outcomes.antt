-- ===== src/Workflow/Run/Outcomes.antt =====
-- What the outcome of `run_workflow` says about the store that it leaves.
use pgloom_engineering.Base.{
  ap, sym, ◌∙◌, ℕ, zero, suc, ◌≤◌, String, ◌≡◌, refl, subst, ◌≢◌, Option, none, some, List, [], ◌∷◌,
  ◌++◌, arith, length, All,
}
use pgloom_engineering.Workflow.Rows.{Feature, Store, Report}
use pgloom_engineering.Workflow.Status.{
  Terminal, done, terminal_status, update_terminal_feature_state, with_state,
}
use pgloom_engineering.Workflow.Status.Done.{IsSettled, terminal_status-done_iff}
use pgloom_engineering.Workflow.Run.{
  Driver, Outcome, not_found, terminal, stalled, step_limit, Turn, continue, finish, recovery_step,
  round, run_loop, run_workflow,
}
use pgloom_engineering.Workflow.Run.Rounds.{
  Stop, Sound, Rounds, no_round, then_rounds, Rounds-length, round-Sound,
}

module _ (driver : Driver) where
  -- Why a whole run ends: some round stopped it, or `n` rounds went on.
  abbrev pub Ends : ℕ → List Report → Store → Outcome × List Report × Store → Type 0
  Ends n steps s (step_limit, steps', s') = Rounds driver n steps s steps' s'
  Ends n steps s (outcome, steps', s') = (read : Store) × Stop driver read outcome s'

  Ends-finish :
      (n : ℕ) (steps steps' : List Report) (s s' : Store) (o : Outcome)
      → Stop driver s o s'
      → Ends n steps s (o, steps', s')
  Ends-finish n steps steps' s s' not_found h = (s, h)
  Ends-finish n steps steps' s s' (terminal status) h = (s, h)
  Ends-finish n steps steps' s s' (stalled ids) h = (s, h)
  Ends-finish n steps steps' s s' step_limit h = absurd h

  Ends-then :
      (n : ℕ) (steps : List Report) (s s' : Store) (first : Report) (more : List Report)
      (r : Outcome × List Report × Store)
      → round driver steps s ≡ continue (steps ++ (first ∷ more)) s'
      → Ends n (steps ++ (first ∷ more)) s' r
      → Ends (suc n) steps s r
  Ends-then n steps s s' first more (not_found, l, u) e h = h
  Ends-then n steps s s' first more (terminal status, l, u) e h = h
  Ends-then n steps s s' first more (stalled ids, l, u) e h = h
  Ends-then n steps s s' first more (step_limit, l, u) e h =
      then_rounds n steps s first more s' l u e h

  abbrev resume : ℕ → Turn → Outcome × List Report × Store
  resume n (continue steps s) = run_loop driver n steps s
  resume n (finish outcome steps s) = (outcome, steps, s)

  resume-Ends :
      (n : ℕ) (steps : List Report) (s : Store) (turn : Turn)
      → ((steps' : List Report) (s' : Store) → Ends n steps' s' (run_loop driver n steps' s'))
      → round driver steps s ≡ turn
      → Sound driver s steps turn
      → Ends (suc n) steps s (resume n turn)
  resume-Ends n steps s (continue steps' s') ih e (first, more, grew) =
      subst (λ l. Ends (suc n) steps s (run_loop driver n l s')) (sym grew)
        (Ends-then n steps s s' first more (run_loop driver n (steps ++ (first ∷ more)) s')
          (e ∙ ap (λ l. continue l s') grew) (ih (steps ++ (first ∷ more)) s'))
  resume-Ends n steps s (finish o steps' s') ih e stop =
      Ends-finish (suc n) steps steps' s s' o stop

  run_loop-suc :
      (n : ℕ) (steps : List Report) (s : Store)
      → run_loop driver (suc n) steps s ≡ resume n (round driver steps s)
  unfolding run_loop
  run_loop-suc n steps s = refl

  run_loop-Ends :
      (n : ℕ) (steps : List Report) (s : Store) → Ends n steps s (run_loop driver n steps s)
  run_loop-Ends zero steps s = unfold run_loop in no_round steps s
  run_loop-Ends (suc n) steps s = rw (run_loop-suc n steps s) (
      resume-Ends n steps s (round driver steps s) (run_loop-Ends n) refl
        (round-Sound driver steps s))

run_workflow-Ends :
    (driver : Driver) (max_steps : ℕ) (start : Store) (r : Outcome × List Report × Store)
    → run_workflow driver max_steps start ≡ r
    → Ends driver max_steps [] start r
unfolding run_workflow
run_workflow-Ends driver max_steps start r h =
    subst (Ends driver max_steps [] start) h (run_loop-Ends driver max_steps [] start)

-- A run that returns a terminal status read a store with that status in its last round, at which no
-- recovery step applied, and left that store with the feature state of the status.
pub run_workflow-terminal :
    (driver : Driver) (max_steps : ℕ) (start : Store) (status : Terminal) (steps : List Report)
    (final : Store)
    → run_workflow driver max_steps start ≡ (terminal status, steps, final)
    → (s : Store) × (terminal_status s ≡ some status)
      × (recovery_step driver s ≡ none)
      × (final ≡ update_terminal_feature_state status s)
run_workflow-terminal driver max_steps start status steps final h =
    let (s, stop) = run_workflow-Ends driver max_steps start (terminal status, steps, final) h in
    (s, stop.0, stop.1, stop.2)

-- A run that reaches the step limit has made `max_steps` rounds, one behind the other from the start
-- to the store it leaves, each of which went on and logged at least one new step; so its log is at
-- least as long as the limit.
pub run_workflow-step_limit :
    (driver : Driver) (max_steps : ℕ) (start : Store) (steps : List Report) (final : Store)
    → run_workflow driver max_steps start ≡ (step_limit, steps, final)
    → Rounds driver max_steps [] start steps final × (max_steps ≤ length steps)
run_workflow-step_limit driver max_steps start steps final h =
    let rounds = run_workflow-Ends driver max_steps start (step_limit, steps, final) h in
    let bound = Rounds-length driver max_steps [] steps start final rounds in
    (rounds, omega (arith, bound))

has_feature :
    (state : String) (f : Option Feature)
    → f ≢ none
    → (g : Feature) × (with_state state f ≡ some g) × (g.state ≡ state)
has_feature state none h = absurd (h refl)
has_feature state (some f) h = (record f { state = state }, refl, refl)

-- When a run reports `done`, the store that it leaves has tasks, each of them is done or was set
-- aside (abandoned or superseded), with the reason of a stale live-evaluation worker, or with a
-- reason of a recovery or a replan and another task done that has its type or its slot; and it has a
-- feature, in the state `ready_for_finalization`.
pub run_workflow-done :
    (driver : Driver) (max_steps : ℕ) (start : Store) (steps : List Report) (final : Store)
    → run_workflow driver max_steps start ≡ (terminal done, steps, final)
    → (final.tasks ≢ [])
      × All (IsSettled final.tasks) final.tasks
      × ((f : Feature) × (final.feature ≡ some f) × (f.state ≡ "ready_for_finalization"))
unfolding terminal_status update_terminal_feature_state
run_workflow-done driver max_steps start steps final h =
    let (s, (status, idle, left, found)) =
      run_workflow-Ends driver max_steps start (terminal done, steps, final) h in
    let (some_task, settled) = (terminal_status-done_iff s.tasks).0 status in
    rw left (some_task, settled, has_feature "ready_for_finalization" s.feature found)
