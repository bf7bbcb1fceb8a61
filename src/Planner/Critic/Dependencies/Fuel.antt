-- ===== src/Planner/Critic/Dependencies/Fuel.antt =====
-- The fuel of the search among dependencies.
use pgloom_engineering.Base.{
  ℕ, zero, suc, ◌+◌, ◌≤◌, ◌<◌, String, Bool, true, false, Option, none, some, List, [], ◌∷◌, length,
  if◌then◌else◌, contains, ◌==◌, ◌≡◌, refl, arith, eq_iff, eq-of_eq, Option-cases, Bool-cases,
  if-split, inl, inr,
}
use pgloom_engineering.Contracts.{TaskSliceContract}
use pgloom_engineering.Planner.Critic.Dependencies.{
  slice_of, extend, dependencies_of, search, unseen,
}

-- Seeing one more id leaves no more dependencies unseen.
unseen-cons_le :
    (c : String) (seen : List String) (slices : List TaskSliceContract)
    → unseen (c ∷ seen) slices ≤ unseen seen slices
unfolding unseen
unseen-cons_le c seen [] = omega arith
unseen-cons_le c seen (s ∷ rest) = ground (arith, unseen-cons_le c seen rest)

found_here :
    (t : TaskSliceContract) (c : String) (s : TaskSliceContract) (later : Option TaskSliceContract)
    → later ≡ none
    → (t.slice_id == c) ≡ true
    → elim later [ some y ↦ some y | none ↦ if t.slice_id == c then some t else none ] ≡ some s
    → t ≡ s
found_here t c s later absent same e = cc (absent, same, e)

-- The dependencies of a slice that is seen now are no longer among the unseen.
unseen-found_le :
    (c : String) (seen : List String) (slices : List TaskSliceContract) (s : TaskSliceContract)
    → contains seen c ≡ false
    → slice_of slices c ≡ some s
    → unseen (c ∷ seen) slices + length s.depends_on ≤ unseen seen slices
unfolding unseen slice_of
unseen-found_le c seen [] s h e = cc
unseen-found_le c seen (t ∷ rest) s h e = elim (Option-cases (slice_of rest c)) [
  | inr (u, found) ↦ ground (arith, unseen-found_le c seen rest s h, eq_iff t.slice_id c)
  | inl absent ↦ elim (Bool-cases (t.slice_id == c)) [
    | inl same ↦
        let found = found_here t c s (slice_of rest c) absent same e in
        let id = eq-of_eq t.slice_id c same in ground (arith, found, id, unseen-cons_le c seen rest)
    | inr other ↦ cc (e, absent, other)
  ]
]

unseen-step_le :
    (c : String) (seen : List String) (slices : List TaskSliceContract)
    → contains seen c ≡ false
    → unseen (c ∷ seen) slices + length (dependencies_of (slice_of slices c)) ≤ unseen seen slices
unseen-step_le c seen slices h = elim (Option-cases (slice_of slices c)) [
  | inl unknown ↦ rw (unknown) (ground (arith, unseen-cons_le c seen slices))
  | inr (s, found) ↦ rw (found) (unseen-found_le c seen slices s h found)
]

pub length-extend :
    (ids stack : List String) → length (extend ids stack) ≡ length ids + length stack
unfolding extend
length-extend [] stack = omega arith
length-extend (d ∷ ids) stack = ground (arith, length-extend ids (d ∷ stack))

abbrev pub Ends : Option Bool → Type 0
Ends o = (b : Bool) × (o ≡ some b)

-- With as much fuel as there is on the stack or to be pushed, the search ends.
pub search-ends :
    (fuel : ℕ) (slices : List TaskSliceContract) (target : String) (seen stack : List String)
    → length stack + unseen seen slices < fuel
    → (b : Bool) × (search fuel slices target seen stack ≡ some b)
unfolding search
search-ends zero slices target seen stack h = (false, ground arith)
search-ends (suc fuel) slices target seen [] h = (false, refl)
search-ends (suc fuel) slices target seen (c ∷ stack) h =
    let goes_on =
      if-split Ends (contains seen c)
        (λ old. search-ends fuel slices target seen stack (ground arith))
        (λ new.
          search-ends fuel slices target (c ∷ seen)
            (extend (dependencies_of (slice_of slices c)) stack)
            (ground (
              arith,
              unseen-step_le c seen slices new,
              length-extend (dependencies_of (slice_of slices c)) stack,
            ))) in
    if-split Ends (c == target) (λ same. (true, refl)) (λ other. goes_on)
