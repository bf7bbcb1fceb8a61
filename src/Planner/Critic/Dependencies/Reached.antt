-- ===== src/Planner/Critic/Dependencies/Reached.antt =====
-- The search among dependencies ends, and finds what can be reached.
use pgloom_engineering.Base.{
  ℕ, zero, suc, String, true, false, ◌||◌, Option, none, some, List, [], ◌∷◌, contains, ◌==◌, ◌≡◌,
  refl, sym, subst, ◌⊎◌, Any, Has, arith, eq_iff, eq_refl, eq-of_eq, Bool-cases, inl, inr,
}
use pgloom_engineering.Contracts.{TaskSliceContract}
use pgloom_engineering.Planner.Critic.Dependencies.{
  slice_of, extend, dependencies_of, search, DependsOn, directly, through,
}

-- The id is the target, or the target is among its dependencies.
abbrev pub Reaches : List TaskSliceContract → String → String → Type 0
Reaches slices target x = (x ≡ target) ⊎ DependsOn slices target x

pub Any-extend :
    (P : String → Type 0) (ids stack : List String)
    → Any P (extend ids stack)
    → Any P ids ⊎ Any P stack
unfolding extend
Any-extend P [] stack m = inr m
Any-extend P (d ∷ ids) stack m = elim (Any-extend P ids (d ∷ stack) m) [
  | inl deep ↦ inl (inr deep)
  | inr (inl here) ↦ inl (inl here)
  | inr (inr old) ↦ inr old
]

-- What one of the dependencies reaches, the slice depends on.
DependsOn-dependencies :
    (slices : List TaskSliceContract) (target c : String) (s : TaskSliceContract)
    (ids : List String)
    → slice_of slices c ≡ some s
    → ((x : String) → Has x ids → Has x s.depends_on)
    → Any (Reaches slices target) ids
    → DependsOn slices target c
DependsOn-dependencies slices target c s [] found sub m = elim m [ ]
DependsOn-dependencies slices target c s (d ∷ ids) found sub (inl (inl here)) =
    directly c s found (sub target (inl here))
DependsOn-dependencies slices target c s (d ∷ ids) found sub (inl (inr deep)) =
    through c s d found (sub d (inl refl)) deep
DependsOn-dependencies slices target c s (d ∷ ids) found sub (inr m) =
    DependsOn-dependencies slices target c s ids found (λ x n. sub x (inr n)) m

pub dependencies_of-DependsOn :
    (slices : List TaskSliceContract) (target c : String) (o : Option TaskSliceContract)
    → slice_of slices c ≡ o
    → Any (Reaches slices target) (dependencies_of o)
    → DependsOn slices target c
dependencies_of-DependsOn slices target c none found m = elim m [ ]
dependencies_of-DependsOn slices target c (some s) found m =
    DependsOn-dependencies slices target c s s.depends_on found (λ x n. n) m

-- What the search finds is reached from the stack.
pub search-true :
    (fuel : ℕ) (slices : List TaskSliceContract) (target : String) (seen stack : List String)
    → search fuel slices target seen stack ≡ some true
    → Any (Reaches slices target) stack
unfolding search
search-true zero slices target seen stack h = cc
search-true (suc fuel) slices target seen [] h = cc
search-true (suc fuel) slices target seen (c ∷ stack) h = elim (Bool-cases (c == target)) [
  | inl same ↦ inl (inl (eq-of_eq c target same))
  | inr other ↦ elim (Bool-cases (contains seen c)) [
    | inl old ↦ inr (search-true fuel slices target seen stack (cc (h, other, old)))
    | inr new ↦
        let deeper =
          search-true fuel slices target (c ∷ seen)
            (extend (dependencies_of (slice_of slices c)) stack) (cc (h, other, new)) in
        elim (Any-extend (Reaches slices target) (dependencies_of (slice_of slices c)) stack
          deeper) [
            | inl m ↦
                inl (inr (dependencies_of-DependsOn slices target c (slice_of slices c) refl m))
            | inr m ↦ inr m
          ]
  ]
]

pub contains-extend :
    (ids stack : List String) (d : String)
    → contains (extend ids stack) d ≡ (contains ids d || contains stack d)
unfolding extend
contains-extend [] stack d = refl
contains-extend (x ∷ ids) stack d = ground (arith, contains-extend ids (x ∷ stack) d)

pub contains_of-Has : (xs : List String) (a : String) → Has a xs → contains xs a ≡ true
contains_of-Has [] a m = elim m [ ]
contains_of-Has (x ∷ xs) a (inl e) = ground (arith, e, eq_refl a)
contains_of-Has (x ∷ xs) a (inr m) = ground (arith, contains_of-Has xs a m)

-- No id seen is the target, and the dependencies of the ids seen are seen or on the stack.
abbrev pub Closed : List TaskSliceContract → String → List String → List String → Type 0
Closed slices target seen stack =
    (c : String)
    → contains seen c ≡ true
    → ((c == target) ≡ false)
      × ((d : String)
          → contains (dependencies_of (slice_of slices c)) d ≡ true
          → (contains seen d || contains stack d) ≡ true)

-- An id among the dependencies of a closed id is seen.
Closed-seen :
    (slices : List TaskSliceContract) (target : String) (seen : List String) (c d : String)
    (s : TaskSliceContract)
    → Closed slices target seen []
    → contains seen c ≡ true
    → slice_of slices c ≡ some s
    → Has d s.depends_on
    → contains seen d ≡ true
Closed-seen slices target seen c d s closed h found m =
    let listed =
      subst (λ o. contains (dependencies_of o) d ≡ true) (sym found)
        (contains_of-Has s.depends_on d m) in
    let either = (closed c h).1 d listed in ground arith

Closed-target :
    (slices : List TaskSliceContract) (target : String) (seen stack : List String)
    → Closed slices target seen stack
    → contains seen target ≡ true
    → ⊥
Closed-target slices target seen stack closed h = cc ((closed target h).0, eq_refl target)

Closed-reaches :
    (slices : List TaskSliceContract) (target : String) (seen : List String) (c : String)
    → Closed slices target seen []
    → contains seen c ≡ true
    → DependsOn slices target c
    → ⊥
Closed-reaches slices target seen c closed h (directly a s found m) =
    Closed-target slices target seen [] closed
      (Closed-seen slices target seen c target s closed h found m)
Closed-reaches slices target seen c closed h (through a s b found m deep) =
    Closed-reaches slices target seen b closed
      (Closed-seen slices target seen c b s closed h found m) deep

-- Skipping an id seen before, or following one that is not the target, keeps the set closed.
Closed-skip :
    (slices : List TaskSliceContract) (target c : String) (seen stack : List String)
    → contains seen c ≡ true
    → Closed slices target seen (c ∷ stack)
    → Closed slices target seen stack
Closed-skip slices target c seen stack old closed a h = (
  (closed a h).0,
  λ d m. let either = (closed a h).1 d m in let same = eq_iff d c in ground arith,
)

Closed-follow :
    (slices : List TaskSliceContract) (target c : String) (seen stack : List String)
    → (c == target) ≡ false
    → Closed slices target seen (c ∷ stack)
    → Closed slices target (c ∷ seen) (extend (dependencies_of (slice_of slices c)) stack)
Closed-follow slices target c seen stack other closed a h = elim (Bool-cases (a == c)) [
  | inl same ↦
      subst
        (λ y.
          ((y == target) ≡ false)
          × ((d : String)
              → contains (dependencies_of (slice_of slices y)) d ≡ true
              → (contains (c ∷ seen) d
                  || contains (extend (dependencies_of (slice_of slices c)) stack) d)
                ≡ true))
        (sym (eq-of_eq a c same))
        (
          other,
          λ d m. ground (arith, contains-extend (dependencies_of (slice_of slices c)) stack d),
        )
  | inr differs ↦
      let known = closed a (ground arith) in
      (
        known.0,
        λ d m.
            let either = known.1 d m in
            ground (arith, contains-extend (dependencies_of (slice_of slices c)) stack d),
      )
]

-- Where the search fails, nothing seen or on the stack reaches the target.
pub search-false :
    (fuel : ℕ) (slices : List TaskSliceContract) (target : String) (seen stack : List String)
    → search fuel slices target seen stack ≡ some false
    → Closed slices target seen stack
    → (x : String) → (contains seen x || contains stack x) ≡ true
    → Reaches slices target x
    → ⊥
unfolding search
search-false zero slices target seen stack h closed x m r = cc
search-false (suc fuel) slices target seen [] h closed x m (inl e) =
    Closed-target slices target seen [] closed
      (subst (λ y. contains seen y ≡ true) e (ground arith))
search-false (suc fuel) slices target seen [] h closed x m (inr r) =
    Closed-reaches slices target seen x closed (ground arith) r
search-false (suc fuel) slices target seen (c ∷ stack) h closed x m r =
    elim (Bool-cases (c == target)) [
      | inl same ↦ cc (h, same)
      | inr other ↦ elim (Bool-cases (contains seen c)) [
        | inl old ↦
            search-false fuel slices target seen stack (cc (h, other, old))
              (Closed-skip slices target c seen stack old closed) x (ground (arith, eq_iff x c)) r
        | inr new ↦
            search-false fuel slices target (c ∷ seen)
              (extend (dependencies_of (slice_of slices c)) stack) (cc (h, other, new))
              (Closed-follow slices target c seen stack other closed) x
              (ground (arith, contains-extend (dependencies_of (slice_of slices c)) stack x)) r
      ]
    ]
