-- ===== src/Workflow/Status/Slots.antt =====
-- What `_ready_slots` lists, and in which order.
use Prim.Native.String.{compare}
use text.Mathlib.Text.{is_le}
use pgloom_engineering.Base.{
  ℕ, ◌≤◌, String, ◌==◌, eq_iff, ◌≡◌, refl, ◌∙◌, Bool, true, false, ◌&&◌, ◌||◌, List, [], ◌∷◌, arith,
  any, All, contains, is_nonempty, or_empty, Bool-cases, ltb, nat_eq, inl, inr,
}
use pgloom_engineering.Workflow.Rows.{TaskRow, Store}
use pgloom_engineering.Workflow.Status.{
  is_live, add_to_set, live_slots, index_of, slot_le, insert_slot, sort_slots, ready_slots,
  preferred_slot_order,
}

-- The task is live and waits for the slot.
abbrev pub wants : String → TaskRow → Bool
wants slot t = is_live t && is_nonempty (or_empty t.slot) && (slot == or_empty t.slot)

member :
    (slot a : String) (slots : List String)
    → contains slots slot ≡ true
    → contains slots a ≡ (a == slot || contains slots a)
member slot a slots old = elim (Bool-cases (a == slot)) [
  | inl same ↦ rw (same, (eq_iff a slot).0 same, old)
  | inr other ↦ rw other
]

contains-add_to_set :
    (slot a : String) (slots : List String)
    → contains (add_to_set slot slots) a ≡ (a == slot || contains slots a)
unfolding add_to_set
contains-add_to_set slot a slots = elim (Bool-cases (contains slots slot)) [
  | inl old ↦ rw old (member slot a slots old)
  | inr new ↦ rw new
]

contains-live_slots :
    (tasks : List TaskRow) (a : String) → contains (live_slots tasks) a ≡ any (wants a) tasks
unfolding live_slots
contains-live_slots [] a = refl
contains-live_slots (t ∷ tasks) a =
    ground (
      arith,
      contains-live_slots tasks a,
      contains-add_to_set (or_empty t.slot) a (live_slots tasks),
    )

contains-insert_slot :
    (slot a : String) (slots : List String)
    → contains (insert_slot slot slots) a ≡ (a == slot || contains slots a)
unfolding insert_slot
contains-insert_slot slot a [] = refl
contains-insert_slot slot a (s ∷ slots) = ground (arith, contains-insert_slot slot a slots)

contains-sort_slots :
    (slots : List String) (a : String) → contains (sort_slots slots) a ≡ contains slots a
unfolding sort_slots
contains-sort_slots [] a = refl
contains-sort_slots (s ∷ slots) a =
    ground (arith, contains-sort_slots slots a, contains-insert_slot s a (sort_slots slots))

-- A slot is offered to a worker exactly when a live task waits for it.
pub contains-ready_slots :
    (s : Store) (slot : String) → contains (ready_slots s) slot ≡ any (wants slot) s.tasks
unfolding ready_slots
contains-ready_slots s slot =
    contains-sort_slots (live_slots s.tasks) slot ∙ contains-live_slots s.tasks slot

abbrev pub AreDistinct : List String → Type 0
AreDistinct [] = Unit
AreDistinct (s ∷ slots) = (contains slots s ≡ false) × AreDistinct slots

insert_slot-AreDistinct :
    (slot : String) (slots : List String)
    → contains slots slot ≡ false
    → AreDistinct slots
    → AreDistinct (insert_slot slot slots)
unfolding insert_slot
insert_slot-AreDistinct slot [] new d = (refl, tt)
insert_slot-AreDistinct slot (s ∷ slots) new d = ground (
  arith,
  insert_slot-AreDistinct slot slots,
  contains-insert_slot slot s slots,
  eq_iff slot s,
  eq_iff s slot,
)

live_slots-AreDistinct : (tasks : List TaskRow) → AreDistinct (live_slots tasks)
unfolding live_slots add_to_set
live_slots-AreDistinct [] = tt
live_slots-AreDistinct (t ∷ tasks) = ground (arith, live_slots-AreDistinct tasks)

sort_slots-AreDistinct : (slots : List String) → AreDistinct slots → AreDistinct (sort_slots slots)
unfolding sort_slots
sort_slots-AreDistinct [] d = tt
sort_slots-AreDistinct (s ∷ slots) d =
    insert_slot-AreDistinct s (sort_slots slots) (contains-sort_slots slots s ∙ d.0)
      (sort_slots-AreDistinct slots d.1)

abbrev pub rank : String → ℕ
rank slot = index_of slot preferred_slot_order

-- No slot stands behind one of a later place in the preferred order.
abbrev pub IsRanked : List String → Type 0
IsRanked [] = Unit
IsRanked (s ∷ slots) = All (λ t. rank s ≤ rank t) slots × IsRanked slots

by_rank :
    (i j : ℕ) (b : Bool)
    → ((ltb i j || (nat_eq i j && b)) ≡ true → i ≤ j)
      × ((ltb i j || (nat_eq i j && b)) ≡ false → j ≤ i)
by_rank i j b = (λ h. ground arith, λ h. ground arith)

slot_le-rank :
    (a b : String)
    → (slot_le a b ≡ true → rank a ≤ rank b) × (slot_le a b ≡ false → rank b ≤ rank a)
unfolding slot_le
slot_le-rank a b = by_rank (rank a) (rank b) (is_le (compare a b))

All-insert_slot :
    (n : ℕ) (slot : String) (slots : List String)
    → n ≤ rank slot
    → All (λ t. n ≤ rank t) slots
    → All (λ t. n ≤ rank t) (insert_slot slot slots)
unfolding insert_slot
All-insert_slot n slot [] h all_le = (h, tt)
All-insert_slot n slot (s ∷ slots) h all_le =
    ground (arith, All-insert_slot n slot slots h all_le.1)

All-trans :
    (m n : ℕ) (slots : List String)
    → m ≤ n
    → All (λ t. n ≤ rank t) slots
    → All (λ t. m ≤ rank t) slots
All-trans m n [] h all_le = tt
All-trans m n (s ∷ slots) h all_le = (omega arith, All-trans m n slots h all_le.1)

insert_slot-IsRanked :
    (slot : String) (slots : List String) → IsRanked slots → IsRanked (insert_slot slot slots)
unfolding insert_slot
insert_slot-IsRanked slot [] h = (tt, tt)
insert_slot-IsRanked slot (s ∷ slots) h = elim (Bool-cases (slot_le slot s)) [
  | inl le ↦
      let first = (slot_le-rank slot s).0 le in
      rw le ((first, All-trans (rank slot) (rank s) slots first h.0), h)
  | inr gt ↦ rw gt (
    All-insert_slot (rank s) slot slots ((slot_le-rank slot s).1 gt) h.0,
    insert_slot-IsRanked slot slots h.1,
  )
]

sort_slots-IsRanked : (slots : List String) → IsRanked (sort_slots slots)
unfolding sort_slots
sort_slots-IsRanked [] = tt
sort_slots-IsRanked (s ∷ slots) =
    insert_slot-IsRanked s (sort_slots slots) (sort_slots-IsRanked slots)

-- The slots are offered once each, in the preferred order.
pub ready_slots_order : (s : Store) → AreDistinct (ready_slots s) × IsRanked (ready_slots s)
unfolding ready_slots
ready_slots_order s = (
  sort_slots-AreDistinct (live_slots s.tasks) (live_slots-AreDistinct s.tasks),
  sort_slots-IsRanked (live_slots s.tasks),
)
