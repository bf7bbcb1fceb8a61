-- ===== src/Workflow/Effects/Abandon.antt =====
-- What `_abandon_nonterminal_tasks` does to each task.
use pgloom_engineering.Base.{
  ℕ, String, ◌==◌, eq_iff, ◌≡◌, refl, sym, ap, ◌∙◌, subst, ◌⊎◌, inl, inr, Bool, true, false, ◌||◌,
  List, [], ◌∷◌, map, map-id, map-map, arith, if◌then◌else◌, if-either, if-split, contains, Has,
  Bool-cases,
}
use pgloom_engineering.Workflow.Rows.{TaskRow, Store, is_terminal, abandoned}
use pgloom_engineering.Workflow.Effects.{
  Runtime, Transitions, update_rows, update_tasks, abandon_row, abandon_nonterminal_tasks,
}

module _ (runtime : Runtime) where
  -- What one step of the loop makes of a row: `skip` is its test.
  abbrev pub step_row : Bool → ℕ → TaskRow → TaskRow → TaskRow
  step_row skip now t u = if skip then u else if u.id == t.id then abandon_row runtime now u else u

  -- What the whole loop makes of a row.
  pub fate : List TaskRow → List String → ℕ → TaskRow → TaskRow
  fate [] exclude now u = u
  fate (t ∷ aggregate) exclude now u =
      fate aggregate exclude now (step_row (contains exclude t.id || is_terminal t.state) now t u)

  abandon_step :
      (skip : Bool) (t : TaskRow) (aggregate : List TaskRow) (exclude : List String) (s : Store)
      → ((s' : Store)
          → (abandon_nonterminal_tasks runtime aggregate exclude s').tasks
            ≡ map (fate aggregate exclude s'.now) s'.tasks)
      → (abandon_nonterminal_tasks runtime aggregate exclude (
          if skip then s else update_tasks (λ u. u.id == t.id) (abandon_row runtime s.now) s)).tasks
        ≡ map (λ u. fate aggregate exclude s.now (step_row skip s.now t u)) s.tasks
  unfolding update_tasks update_rows
  abandon_step true t aggregate exclude s ih = ih s
  abandon_step false t aggregate exclude s ih =
      ih (update_tasks (λ u. u.id == t.id) (abandon_row runtime s.now) s)
      ∙ map-map (fate aggregate exclude s.now) (step_row false s.now t) s.tasks

  pub tasks-abandon :
      (aggregate : List TaskRow) (exclude : List String) (s : Store)
      → (abandon_nonterminal_tasks runtime aggregate exclude s).tasks
        ≡ map (fate aggregate exclude s.now) s.tasks
  unfolding abandon_nonterminal_tasks fate
  tasks-abandon [] exclude s = sym (map-id s.tasks)
  tasks-abandon (t ∷ aggregate) exclude s =
      abandon_step (contains exclude t.id || is_terminal t.state) t aggregate exclude s
        (tasks-abandon aggregate exclude)

  -- A row that the loop may not touch stays as it is.
  pub fate-excluded :
      (aggregate : List TaskRow) (exclude : List String) (now : ℕ) (u : TaskRow)
      → contains exclude u.id ≡ true
      → fate aggregate exclude now u ≡ u
  unfolding fate
  fate-excluded [] exclude now u h = refl
  fate-excluded (t ∷ aggregate) exclude now u h =
      ap (fate aggregate exclude now) same ∙ fate-excluded aggregate exclude now u h
    where
      same : step_row (contains exclude t.id || is_terminal t.state) now t u ≡ u
      same = ground (arith, eq_iff u.id t.id, h)

module _ (runtime : Runtime) (laws : Transitions runtime) where
  abandon_row-terminal :
      (now : ℕ) (u : TaskRow) → is_terminal (abandon_row runtime now u).state ≡ true
  unfolding abandon_row
  abandon_row-terminal now u = rw (laws.state u abandoned)

  abandon_row-id : (now : ℕ) (u : TaskRow) → (abandon_row runtime now u).id ≡ u.id
  unfolding abandon_row
  abandon_row-id now u = laws.id u abandoned

  step_row-id : (skip : Bool) (now : ℕ) (t u : TaskRow) → (step_row runtime skip now t u).id ≡ u.id
  step_row-id true now t u = refl
  step_row-id false now t u =
      if-either (λ (v : TaskRow). v.id ≡ u.id) (u.id == t.id) (abandon_row-id now u) refl

  pub fate-id :
      (aggregate : List TaskRow) (exclude : List String) (now : ℕ) (u : TaskRow)
      → (fate runtime aggregate exclude now u).id ≡ u.id
  unfolding fate
  fate-id [] exclude now u = refl
  fate-id (t ∷ aggregate) exclude now u = fate-id aggregate exclude now _ ∙ step_row-id _ now t u

  step_row-terminal :
      (skip : Bool) (now : ℕ) (t u : TaskRow)
      → is_terminal u.state ≡ true
      → is_terminal (step_row runtime skip now t u).state ≡ true
  step_row-terminal true now t u h = h
  step_row-terminal false now t u h =
      if-either (λ (v : TaskRow). is_terminal v.state ≡ true) (u.id == t.id)
        (abandon_row-terminal now u) h

  pub fate-terminal :
      (aggregate : List TaskRow) (exclude : List String) (now : ℕ) (u : TaskRow)
      → is_terminal u.state ≡ true
      → is_terminal (fate runtime aggregate exclude now u).state ≡ true
  unfolding fate
  fate-terminal [] exclude now u h = h
  fate-terminal (t ∷ aggregate) exclude now u h =
      fate-terminal aggregate exclude now _ (step_row-terminal _ now t u h)

  step_row-hit :
      (now : ℕ) (t u : TaskRow)
      → (u.id == t.id) ≡ true
      → is_terminal (step_row runtime false now t u).state ≡ true
  step_row-hit now t u e =
      if-split (λ (v : TaskRow). is_terminal v.state ≡ true) (u.id == t.id)
        (λ _. abandon_row-terminal now u) (λ other. absurd (cc (e, other)))

  step_row-moves :
      (exclude : List String) (now : ℕ) (t u : TaskRow)
      → u.id ≡ t.id
      → contains exclude t.id ≡ false
      → is_terminal t.state ≡ false
      → is_terminal (step_row runtime (contains exclude t.id || is_terminal t.state) now t u).state
        ≡ true
  step_row-moves exclude now t u e free live =
      subst (λ (skip : Bool). is_terminal (step_row runtime skip now t u).state ≡ true)
        (sym skipped) (step_row-hit now t u ((eq_iff u.id t.id).1 e))
    where
      skipped : (contains exclude t.id || is_terminal t.state) ≡ false
      skipped = ground arith

  -- A task of the aggregate that is not excluded ends up terminal.
  pub fate-finished :
      (aggregate : List TaskRow) (exclude : List String) (now : ℕ) (u t : TaskRow)
      → Has t aggregate
      → u.id ≡ t.id
      → contains exclude t.id ≡ false
      → is_terminal t.state ≡ false
      → is_terminal (fate runtime aggregate exclude now u).state ≡ true
  unfolding fate
  fate-finished [] exclude now u t m e free live = elim m [ ]
  fate-finished (t' ∷ aggregate) exclude now u t (inl here) e free live =
      fate-terminal aggregate exclude now _
        (step_row-moves exclude now t' u (cc (e, here)) (rw here free) (rw here live))
  fate-finished (t' ∷ aggregate) exclude now u t (inr m) e free live =
      fate-finished aggregate exclude now _ t m (step_row-id _ now t' u ∙ e) free live

  -- After the loop over the store's own tasks, each is an excluded one, left as it was, or terminal.
  pub tasks-abandon-finished :
      (aggregate : List TaskRow) (exclude : List String) (now : ℕ) (u : TaskRow)
      → Has u aggregate
      → ((contains exclude u.id ≡ true) × (fate runtime aggregate exclude now u ≡ u))
        ⊎ (is_terminal (fate runtime aggregate exclude now u).state ≡ true)
  tasks-abandon-finished aggregate exclude now u m = elim (Bool-cases (contains exclude u.id)) [
    | inl kept ↦ inl (kept, fate-excluded runtime aggregate exclude now u kept)
    | inr free ↦ elim (Bool-cases (is_terminal u.state)) [
      | inl ended ↦ inr (fate-terminal aggregate exclude now u ended)
      | inr live ↦ inr (fate-finished aggregate exclude now u u m refl free live)
    ]
  ]
