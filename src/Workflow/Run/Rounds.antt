-- ===== src/Workflow/Run/Rounds.antt =====
-- What a round of `run_workflow` does: it logs a step and goes on, or says why the run ends.
use mathlib.Core.List.{append_assoc}
use pgloom_engineering.Base.{
  ◌∙◌, ℕ, zero, suc, ◌+◌, ◌≤◌, String, ◌≡◌, refl, ◌≢◌, Bool, true, false, Option, none, some, List,
  [], ◌∷◌, ◌++◌, arith, length, length-append, is_empty, Option-cases, if-either, if-split, inl,
  inr,
}
use pgloom_engineering.Workflow.Rows.{Feature, Store, Report}
use pgloom_engineering.Workflow.Status.{
  terminal_status, stalled_status, update_terminal_feature_state, ready_slots,
}
use pgloom_engineering.Workflow.Run.{
  Driver, Outcome, not_found, terminal, stalled, step_limit, Turn, continue, finish, if_found,
  dispatch, recovery_step, after_dispatch, work, advance, stale_step, round,
}

module _ (driver : Driver) where
  -- Why a run stops with an outcome, by the store `s` that its last round read and the store `s'`
  -- that it leaves.
  abbrev pub Stop : Store → Outcome → Store → Type 0
  Stop s not_found s' = s.feature ≡ none
  Stop s (terminal status) s' =
      (terminal_status s ≡ some status)
      × (recovery_step driver s ≡ none)
      × (s' ≡ update_terminal_feature_state status s)
      × (s.feature ≢ none)
  Stop s (stalled ids) s' =
      (terminal_status s ≡ none) × (recovery_step driver s ≡ none) × (ids ≡ stalled_status s)
  Stop s step_limit s' = ⊥

  -- The log with at least one more report.
  abbrev pub Grown : List Report → List Report → Type 0
  Grown steps steps' = (first : Report) × (more : List Report) × (steps' ≡ steps ++ (first ∷ more))

  -- A round that goes on has logged a step; one that returns says why.
  abbrev pub Sound : Store → List Report → Turn → Type 0
  Sound s steps (continue steps' s') = Grown steps steps'
  Sound s steps (finish outcome steps' s') = Stop s outcome s'

  -- Rounds one behind the other, each of which logs a step and goes on: how many, from which log
  -- and store, and to which.
  pub data Rounds : ℕ → List Report → Store → List Report → Store → Type 0 where
    no_round : (steps : List Report) (s : Store) → Rounds zero steps s steps s
    then_rounds :
        (n : ℕ) (steps : List Report) (s : Store) (first : Report) (more : List Report) (s' : Store)
        (last : List Report) (final : Store)
        → round driver steps s ≡ continue (steps ++ (first ∷ more)) s'
        → Rounds n (steps ++ (first ∷ more)) s' last final
        → Rounds (suc n) steps s last final

  pub Rounds-length :
      (n : ℕ) (steps last : List Report) (s final : Store)
      → Rounds n steps s last final
      → n + length steps ≤ length last
  Rounds-length n steps last s final (no_round l t) = omega arith
  Rounds-length n steps last s final (then_rounds m l t first more s' l' f e rounds) =
      let longer = length-append steps (first ∷ more) in
      let rest = Rounds-length m (steps ++ (first ∷ more)) last s' final rounds in
      omega (arith, longer, rest)

  -- `dispatch` logs each worker it calls.
  dispatch-Grown :
      (slots : List String) (steps : List Report) (s : Store)
      → (dispatch driver slots steps s).0 ≡ true
      → Grown steps (dispatch driver slots steps s).1
  unfolding dispatch
  dispatch-Grown [] steps s = λ h. cc
  dispatch-Grown (slot ∷ slots) steps s =
      let (s', report) = driver.worker slot s in
      if-either (λ (d : Bool × List Report × Store). d.0 ≡ true → Grown steps d.1) report.claimed
        (λ h. (report, [], refl))
        (λ h.
          let (first, more, e) = dispatch-Grown slots (steps ++ report ∷ []) s' h in
          (report, first ∷ more, e ∙ append_assoc steps (report ∷ []) (first ∷ more)))

  after_dispatch-Sound :
      (s : Store) (steps : List Report) (d : Bool × List Report × Store)
      → recovery_step driver s ≡ none
      → terminal_status s ≡ none
      → (d.0 ≡ true → Grown steps d.1)
      → Sound s steps (after_dispatch driver s d)
  after_dispatch-Sound s steps (true, steps', s') r t grows = grows refl
  after_dispatch-Sound s steps (false, steps', s') r t grows = (t, r, refl)

  work-Sound :
      (steps : List Report) (s : Store)
      → s.feature ≢ none
      → recovery_step driver s ≡ none
      → Sound s steps (work driver steps s)
  unfolding work
  work-Sound steps s found r = elim (Option-cases (terminal_status s)) [
    | inl e ↦
        rw (e, work) (after_dispatch-Sound s steps _ r e (dispatch-Grown (ready_slots s) steps s))
    | inr (status, e) ↦ rw (e, work) (e, r, refl, found)
  ]

  advance-Sound :
      (steps : List Report) (s : Store) → s.feature ≢ none → Sound s steps (advance driver steps s)
  unfolding advance
  advance-Sound steps s found = elim (Option-cases (recovery_step driver s)) [
    | inl e ↦ rw (e, advance) (work-Sound steps s found e)
    | inr ((s', report), e) ↦ rw (e, advance) (report, [], refl)
  ]

  if_found-either :
      (P : Turn → Type 0) (o : Option Feature) {missing found : Turn}
      → (o ≡ none → P missing)
      → (o ≢ none → P found)
      → P (if_found driver o missing found)
  if_found-either P none pm pf = pm refl
  if_found-either P (some f) pm pf = pf (λ e. cc)

  grown : (steps more : List Report) → is_empty more ≡ false → Grown steps (steps ++ more)
  grown steps [] h = cc
  grown steps (r ∷ more) h = (r, more, refl)

  pub round-Sound : (steps : List Report) (s : Store) → Sound s steps (round driver steps s)
  unfolding round
  round-Sound steps s =
      let (s', recovered) = stale_step driver s in
      if-split (Sound s steps) (is_empty recovered)
        (λ e.
          if_found-either (Sound s steps) s.feature (λ missing. missing) (advance-Sound steps s))
        (λ more. grown steps recovered more)
