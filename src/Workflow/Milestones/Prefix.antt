-- ===== src/Workflow/Milestones/Prefix.antt =====
-- The two parts of a plan at a milestone, and the tasks that a milestone replan supersedes.
use pgloom_engineering.Base.{
  ℕ, String, ◌==◌, ◌≡◌, refl, ap, sym, ◌∙◌, ◌⊎◌, inl, inr, true, false, not, ◌&&◌, List, [], ◌∷◌,
  ◌++◌, map, arith, contains, or_empty, if-either, subst, Option, some, All-at, Has-append_cases,
  Has-singleton, Has-append_left, Has-map_fixed, All-map_of_Has, Has, Bool-cases, if◌then◌else◌,
  none, if-split, any-append_right,
}
use pgloom_engineering.Contracts.{MilestoneContract, PlanContract}
use pgloom_engineering.Workflow.Rows.{
  TaskRow, Store, TaskPayload, Report, Intervention, is_terminal,
}
use pgloom_engineering.Workflow.Recovery.{active_planner_exists}
use pgloom_engineering.Workflow.Effects.{
  Runtime, Enqueues, update_rows, update_tasks, enqueue_planner,
}
use pgloom_engineering.Workflow.Repair.{Step}
use pgloom_engineering.Workflow.Milestones.{
  slice_ids_before, slice_ids_included, slice_ids_before_milestone, slice_ids_at_or_after_milestone,
  supersede_row, supersede_tasks, replan_from, task_ids_at_or_after_milestone,
  next_planner_priority, consume_intervention, replan_from_milestone_payload,
  next_replan_from_milestone_intervention, consume_replan_from_milestone,
}

-- The slices of all milestones, in order.
abbrev pub milestone_slice_ids : List MilestoneContract → List String
milestone_slice_ids [] = []
milestone_slice_ids (m ∷ rest) = m.slice_ids ++ milestone_slice_ids rest

included_true :
    (ms : List MilestoneContract) (id : String)
    → slice_ids_included true ms id ≡ milestone_slice_ids ms
unfolding slice_ids_included
included_true [] id = refl
included_true (m ∷ rest) id = ap (λ later. m.slice_ids ++ later) (included_true rest id)

append_assoc : (xs ys zs : List String) → (xs ++ ys) ++ zs ≡ xs ++ (ys ++ zs)
append_assoc [] ys zs = refl
append_assoc (x ∷ xs) ys zs = ap (◌∷◌ x) (append_assoc xs ys zs)

split_at_milestone :
    (ms : List MilestoneContract) (id : String)
    → slice_ids_before ms id ++ slice_ids_included false ms id ≡ milestone_slice_ids ms
unfolding slice_ids_before slice_ids_included
split_at_milestone [] id = refl
split_at_milestone (m ∷ rest) id = elim (Bool-cases (m.milestone_id == id)) [
  | inl here ↦ rw (here) (ap (λ later. m.slice_ids ++ later) (included_true rest id))
  | inr other ↦ rw (other) (
      append_assoc m.slice_ids (slice_ids_before rest id) (slice_ids_included false rest id)
      ∙ ap (λ later. m.slice_ids ++ later) (split_at_milestone rest id))
]

-- The frozen prefix and the slices to replan are, in this order, the slices of all milestones.
pub slice_ids_before-at_or_after :
    (plan : PlanContract) (milestone_id : String)
    → slice_ids_before_milestone plan milestone_id
        ++ slice_ids_at_or_after_milestone plan milestone_id
      ≡ milestone_slice_ids plan.milestones
unfolding slice_ids_before_milestone slice_ids_at_or_after_milestone
slice_ids_before-at_or_after plan milestone_id = split_at_milestone plan.milestones milestone_id

abbrev superseded_row : List String → ℕ → TaskRow → TaskRow
superseded_row task_ids now t =
    if contains task_ids t.id && not (is_terminal t.state) then supersede_row now t else t

superseded_row-cases :
    (task_ids : List String) (now : ℕ) (t : TaskRow)
    → (contains task_ids (superseded_row task_ids now t).id ≡ true
        → is_terminal (superseded_row task_ids now t).state ≡ true)
superseded_row-cases task_ids now t =
    if-split (λ (v : TaskRow). contains task_ids v.id ≡ true → is_terminal v.state ≡ true)
      (contains task_ids t.id && not (is_terminal t.state)) (λ _ _. refl)
      (λ kept m. ground (arith, kept, m))

superseded_row-kept :
    (task_ids : List String) (now : ℕ) (t : TaskRow)
    → (contains task_ids t.id && not (is_terminal t.state)) ≡ false
    → superseded_row task_ids now t ≡ t
superseded_row-kept task_ids now t kept =
    if-split (λ (v : TaskRow). v ≡ t) (contains task_ids t.id && not (is_terminal t.state))
      (λ moved. absurd (cc (kept, moved))) (λ _. refl)

module _ (runtime : Runtime) (i : Intervention) (payload : TaskPayload) (s : Store) where
  abbrev pub replanned_ids : List String
  replanned_ids = task_ids_at_or_after_milestone s (or_empty i.milestone_id)

  abbrev milestone_planner : TaskRow
  milestone_planner =
      runtime.enqueue_task (supersede_tasks replanned_ids s) "engineering.plan" "planner" payload
        (next_planner_priority s.tasks) 3

  tasks-replan_from :
      (replan_from runtime i payload s).0.tasks
      ≡ map (superseded_row replanned_ids s.now) s.tasks ++ milestone_planner ∷ []
  unfolding replan_from enqueue_planner supersede_tasks update_tasks update_rows
  tasks-replan_from = refl

  -- After a replan from a milestone, each task that the replan was to supersede is terminal, unless
  -- its id is the new planner task's.
  pub replan_from-supersedes :
      (t : TaskRow)
      → Has t (replan_from runtime i payload s).0.tasks
      → contains replanned_ids t.id ≡ true
      → (is_terminal t.state ≡ true) ⊎ (t.id ≡ milestone_planner.id)
  replan_from-supersedes t m inside =
      elim (Has-append_cases t (map (superseded_row replanned_ids s.now) s.tasks)
        (milestone_planner ∷ []) (subst (Has t) tasks-replan_from m)) [
          | inl old ↦ inl (
              All-at (λ u. contains replanned_ids u.id ≡ true → is_terminal u.state ≡ true)
                (map (superseded_row replanned_ids s.now) s.tasks)
                (All-map_of_Has
                  (λ u. contains replanned_ids u.id ≡ true → is_terminal u.state ≡ true)
                  (superseded_row replanned_ids s.now) s.tasks
                  (λ u _. superseded_row-cases replanned_ids s.now u))
                old inside)
          | inr new ↦ inr (sym (ap (λ (u : TaskRow). u.id) (Has-singleton t milestone_planner new)))
        ]

  -- A replan from a milestone leaves a task as it was that is terminal or that is not superseded.
  pub replan_from-keeps :
      (t : TaskRow)
      → Has t s.tasks
      → (contains replanned_ids t.id && not (is_terminal t.state)) ≡ false
      → Has t (replan_from runtime i payload s).0.tasks
  replan_from-keeps t m kept = subst (Has t) (sym tasks-replan_from) (
      Has-append_left t (map (superseded_row replanned_ids s.now) s.tasks) (milestone_planner ∷ [])
        (Has-map_fixed (superseded_row replanned_ids s.now) t s.tasks m
          (superseded_row-kept replanned_ids s.now t kept)))

  module _ (enqueues : Enqueues runtime) where
    planner_active : active_planner_exists (replan_from runtime i payload s).0 ≡ true
    unfolding active_planner_exists
    planner_active = rw (tasks-replan_from) (
        any-append_right _ (map (superseded_row replanned_ids s.now) s.tasks)
          (milestone_planner ∷ [])
          (rw (
            enqueues.state (supersede_tasks replanned_ids s) "engineering.plan" "planner" payload
                (next_planner_priority s.tasks) 3,
            enqueues.task_type (supersede_tasks replanned_ids s) "engineering.plan" "planner"
                payload (next_planner_priority s.tasks) 3,
          )))

abbrev pub Settled : Runtime → Option (Store × Report) → Type 0
Settled runtime none = Unit
Settled runtime (some done) = consume_replan_from_milestone runtime done.0 ≡ none

module _ (runtime : Runtime) (enqueues : Enqueues runtime) where
  consume_intervention-Settled :
      (i : Intervention) (s : Store) → Settled runtime (consume_intervention runtime i s)
  unfolding consume_intervention consume_replan_from_milestone
  consume_intervention-Settled i s =
      elim (replan_from_milestone_payload s i)
        as (λ o.
          Settled runtime
            (elim o as (λ _. Step) [ none ↦ none | some p ↦ some (replan_from runtime i p s) ])) [
              | none ↦ tt
              | some payload ↦ rw (planner_active runtime i payload s enqueues)
            ]

  consume-Settled : (s : Store) → Settled runtime (consume_replan_from_milestone runtime s)
  unfolding consume_replan_from_milestone
  consume-Settled s =
      if-either (Settled runtime) (active_planner_exists s) tt
        (elim (next_replan_from_milestone_intervention s)
          as (λ o.
            Settled runtime
              (elim o as (λ _. Step) [ none ↦ none | some i ↦ consume_intervention runtime i s ])) [
                | none ↦ tt
                | some i ↦ consume_intervention-Settled i s
              ])

  -- With a runtime whose new tasks are queued with the type asked for: when a round has consumed an
  -- operator's replan request, the next one consumes none, whatever other requests are pending.
  pub consume_replan_from_milestone-once :
      (s s' : Store) (report : Report)
      → consume_replan_from_milestone runtime s ≡ some (s', report)
      → consume_replan_from_milestone runtime s' ≡ none
  consume_replan_from_milestone-once s s' report h = subst (Settled runtime) h (consume-Settled s)
