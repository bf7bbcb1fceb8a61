-- ===== src/Workflow/Stale/Cleared.antt =====
-- Which tasks a recovery of stale workers changes.
use pgloom_engineering.Base.{
  ℕ, ◌==◌, eq_iff, ◌≡◌, refl, ap, sym, ◌∙◌, subst, inl, inr, Bool, true, false, ◌||◌, List, [], ◌∷◌,
  map, map-map, map-id, arith, leb, if◌then◌else◌, if-either, if-split, any, filter, All,
  All-map_of_Has, Has, Bool-cases, Has-map_fixed,
}
use pgloom_engineering.Workflow.Rows.{TaskRow, Store}
use pgloom_engineering.Workflow.Effects.{update_rows, update_tasks, record_recovery_action}
use pgloom_engineering.Workflow.Stale.{
  Rendering, is_in_flight, is_stale, insert_by_age, sort_by_age, stale_tasks, crashed, crash_task,
  crash_tasks, crash_action, record_crashes, recover_stale_running_tasks,
}

Has-insert_by_age_head : (t : TaskRow) (rows : List TaskRow) → Has t (insert_by_age t rows)
unfolding insert_by_age
Has-insert_by_age_head t [] = inl refl
Has-insert_by_age_head t (u ∷ rest) =
    if-either (Has t) (leb t.updated_at u.updated_at) {x = t ∷ u ∷ rest}
      {y = u ∷ insert_by_age t rest} (inl refl) (inr (Has-insert_by_age_head t rest))

Has-insert_by_age_tail :
    (t u : TaskRow) (rows : List TaskRow) → Has u rows → Has u (insert_by_age t rows)
unfolding insert_by_age
Has-insert_by_age_tail t u [] m = elim m [ ]
Has-insert_by_age_tail t u (v ∷ rest) (inl e) =
    if-either (Has u) (leb t.updated_at v.updated_at) {x = t ∷ v ∷ rest}
      {y = v ∷ insert_by_age t rest} (inr (inl e)) (inl e)
Has-insert_by_age_tail t u (v ∷ rest) (inr m) =
    if-either (Has u) (leb t.updated_at v.updated_at) {x = t ∷ v ∷ rest}
      {y = v ∷ insert_by_age t rest} (inr (inr m)) (inr (Has-insert_by_age_tail t u rest m))

Has-sort_by_age : (u : TaskRow) (rows : List TaskRow) → Has u rows → Has u (sort_by_age rows)
unfolding sort_by_age
Has-sort_by_age u [] m = elim m [ ]
Has-sort_by_age u (t ∷ rest) (inl e) =
    subst (λ v. Has v (insert_by_age t (sort_by_age rest))) e
      (Has-insert_by_age_head t (sort_by_age rest))
Has-sort_by_age u (t ∷ rest) (inr m) =
    Has-insert_by_age_tail t u (sort_by_age rest) (Has-sort_by_age u rest m)

Has-filter :
    {A : Type 0} (p : A → Bool) (x : A) (xs : List A) → Has x xs → p x ≡ true → Has x (filter p xs)
Has-filter p x [] m h = elim m [ ]
Has-filter p x (y ∷ xs) (inl e) h =
    if-split (Has x) (p y) {x = y ∷ filter p xs} {y = filter p xs} (λ _. inl e)
      (λ no. absurd (cc (e, h, no)))
Has-filter p x (y ∷ xs) (inr m) h =
    if-either (Has x) (p y) {x = y ∷ filter p xs} {y = filter p xs} (inr (Has-filter p x xs m h))
      (Has-filter p x xs m h)

or-false : (a b : Bool) → (a || b) ≡ false → (a ≡ false) × (b ≡ false)
or-false a b h = ground arith

or-true_right : (a b : Bool) → a ≡ false → (a || b) ≡ true → b ≡ true
or-true_right a b h k = ground arith

any-id_of_Has :
    (u : TaskRow) (rows : List TaskRow) → Has u rows → any (λ t. u.id == t.id) rows ≡ true
any-id_of_Has u [] m = elim m [ ]
any-id_of_Has u (t ∷ rest) (inl e) = rw ((eq_iff u.id t.id).1 (cc (e)))
any-id_of_Has u (t ∷ rest) (inr m) = ground (arith, any-id_of_Has u rest m)

not_in_flight-fresh :
    (lease_seconds now : ℕ) (u : TaskRow)
    → is_in_flight u.state ≡ false
    → is_stale lease_seconds now u ≡ false
unfolding is_stale
not_in_flight-fresh lease_seconds now u h = rw (h)

module _ (rendering : Rendering) where
  -- What one stale task makes of a row, and what all of them make of it.
  abbrev crash_step : ℕ → TaskRow → TaskRow → TaskRow
  crash_step now t u = if u.id == t.id then crashed rendering now t u else u

  crash_fate : List TaskRow → ℕ → TaskRow → TaskRow
  crash_fate [] now u = u
  crash_fate (t ∷ rest) now u = crash_fate rest now (crash_step now t u)

  tasks-crash_tasks :
      (rows : List TaskRow) (s : Store)
      → (crash_tasks rendering rows s).tasks ≡ map (crash_fate rows s.now) s.tasks
  unfolding crash_tasks crash_fate crash_task update_tasks update_rows
  tasks-crash_tasks [] s = sym (map-id s.tasks)
  tasks-crash_tasks (t ∷ rest) s =
      tasks-crash_tasks rest (crash_task rendering t s)
      ∙ map-map (crash_fate rest s.now) (crash_step s.now t) s.tasks

  tasks-record_crashes :
      (rows : List TaskRow) (s : Store) → (record_crashes rendering rows s).tasks ≡ s.tasks
  unfolding record_crashes record_recovery_action
  tasks-record_crashes [] s = refl
  tasks-record_crashes (t ∷ rest) s =
      tasks-record_crashes rest (record_recovery_action (crash_action rendering t) s)

  -- A row that is not in flight stays so.
  crash_step-rests :
      (now : ℕ) (t u : TaskRow)
      → is_in_flight u.state ≡ false
      → is_in_flight (crash_step now t u).state ≡ false
  crash_step-rests now t u h =
      if-either (λ (v : TaskRow). is_in_flight v.state ≡ false) (u.id == t.id)
        {x = crashed rendering now t u} {y = u} refl h

  crash_fate-rests :
      (rows : List TaskRow) (now : ℕ) (u : TaskRow)
      → is_in_flight u.state ≡ false
      → is_in_flight (crash_fate rows now u).state ≡ false
  unfolding crash_fate
  crash_fate-rests [] now u h = h
  crash_fate-rests (t ∷ rest) now u h =
      crash_fate-rests rest now (crash_step now t u) (crash_step-rests now t u h)

  crash_step-id : (now : ℕ) (t u : TaskRow) → (crash_step now t u).id ≡ u.id
  crash_step-id now t u =
      if-either (λ (v : TaskRow). v.id ≡ u.id) (u.id == t.id) {x = crashed rendering now t u}
        {y = u} refl refl

  -- A row with the id of a stale task ends up out of flight.
  crash_fate-hit :
      (rows : List TaskRow) (now : ℕ) (u : TaskRow)
      → any (λ t. u.id == t.id) rows ≡ true
      → is_in_flight (crash_fate rows now u).state ≡ false
  unfolding crash_fate
  crash_fate-hit [] now u h = cc
  crash_fate-hit (t ∷ rest) now u h = elim (Bool-cases (u.id == t.id)) [
    | inl here ↦ crash_fate-rests rest now (crash_step now t u) (
        if-split (λ (v : TaskRow). is_in_flight v.state ≡ false) (u.id == t.id)
          {x = crashed rendering now t u} {y = u} (λ _. refl) (λ other. absurd (cc (here, other))))
    | inr other ↦ crash_fate-hit rest now (crash_step now t u) (
        subst (λ id. any (λ v. id == v.id) rest ≡ true) (sym (crash_step-id now t u))
          (or-true_right (u.id == t.id) (any (λ v. u.id == v.id) rest) other h))
  ]

  -- A row whose id no stale task has is left alone.
  crash_fate-other :
      (rows : List TaskRow) (now : ℕ) (u : TaskRow)
      → any (λ t. u.id == t.id) rows ≡ false
      → crash_fate rows now u ≡ u
  unfolding crash_fate
  crash_fate-other [] now u h = refl
  crash_fate-other (t ∷ rest) now u h =
      let (here, later) = or-false (u.id == t.id) (any (λ v. u.id == v.id) rest) h in
      ap (crash_fate rest now) (
        if-split (λ (v : TaskRow). v ≡ u) (u.id == t.id) {x = crashed rendering now t u} {y = u}
          (λ hit. absurd (cc (here, hit))) (λ _. refl))
      ∙ crash_fate-other rest now u later

  module _ (lease_seconds : ℕ) (s : Store) where
    tasks-recover :
        (recover_stale_running_tasks rendering lease_seconds s).0.tasks
        ≡ map (crash_fate (stale_tasks lease_seconds s) s.now) s.tasks
    unfolding recover_stale_running_tasks
    tasks-recover =
        tasks-record_crashes (stale_tasks lease_seconds s)
          (crash_tasks rendering (stale_tasks lease_seconds s) s)
        ∙ tasks-crash_tasks (stale_tasks lease_seconds s) s

    unlisted :
        (u : TaskRow)
        → Has u s.tasks
        → any (λ t. u.id == t.id) (stale_tasks lease_seconds s) ≡ false
        → is_stale lease_seconds s.now u ≡ false
    unfolding stale_tasks
    unlisted u m other = elim (Bool-cases (is_stale lease_seconds s.now u)) [
      | inr fresh ↦ fresh
      | inl stale ↦ absurd (
          cc (
            other,
            any-id_of_Has u (stale_tasks lease_seconds s) (
                Has-sort_by_age u (filter (is_stale lease_seconds s.now) s.tasks)
                  (Has-filter (is_stale lease_seconds s.now) u s.tasks m stale)),
          ))
    ]

    fresh :
        (u : TaskRow)
        → Has u s.tasks
        → is_stale lease_seconds s.now (crash_fate (stale_tasks lease_seconds s) s.now u) ≡ false
    fresh u m = elim (Bool-cases (any (λ t. u.id == t.id) (stale_tasks lease_seconds s))) [
      | inl hit ↦
          not_in_flight-fresh lease_seconds s.now _
            (crash_fate-hit (stale_tasks lease_seconds s) s.now u hit)
      | inr other ↦
          subst (λ v. is_stale lease_seconds s.now v ≡ false)
            (sym (crash_fate-other (stale_tasks lease_seconds s) s.now u other))
            (unlisted u m other)
    ]

    -- After a recovery of stale workers no task of the feature is in flight beyond its lease.
    pub recover_stale_running_tasks-clears :
        All
          (λ t. is_stale lease_seconds s.now t ≡ false)
          (recover_stale_running_tasks rendering lease_seconds s).0.tasks
    recover_stale_running_tasks-clears =
        subst (All (λ t. is_stale lease_seconds s.now t ≡ false)) (sym tasks-recover) (
          All-map_of_Has (λ t. is_stale lease_seconds s.now t ≡ false)
            (crash_fate (stale_tasks lease_seconds s) s.now) s.tasks fresh)

    -- A recovery of stale workers leaves a task as it was whose id no stale task has.
    pub recover_stale_running_tasks-keeps :
        (t : TaskRow)
        → Has t s.tasks
        → any (λ u. t.id == u.id) (stale_tasks lease_seconds s) ≡ false
        → Has t (recover_stale_running_tasks rendering lease_seconds s).0.tasks
    recover_stale_running_tasks-keeps t m other = subst (Has t) (sym tasks-recover) (
        Has-map_fixed (crash_fate (stale_tasks lease_seconds s) s.now) t s.tasks m
          (crash_fate-other (stale_tasks lease_seconds s) s.now t other))
