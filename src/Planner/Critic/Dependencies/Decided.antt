-- ===== src/Planner/Critic/Dependencies/Decided.antt =====
-- What the search of planner/critic.py among dependencies decides.
use pgloom_engineering.Base.{
  String, Bool, true, false, Option, none, some, List, [], ◌≡◌, refl, ap, ◌∙◌, sym, subst, ◌↔◌,
  contains, arith, inl, inr,
}
use pgloom_engineering.Contracts.{TaskSliceContract}
use pgloom_engineering.Planner.Critic.Dependencies.{
  slice_of, extend, dependencies_of, search, search_fuel, search_from, depends_on_transitively,
  is_found, DependsOn, directly, through,
}
use pgloom_engineering.Planner.Critic.Dependencies.Fuel.{search-ends, length-extend}
use pgloom_engineering.Planner.Critic.Dependencies.Reached.{
  Reaches, search-true, search-false, Any-extend, dependencies_of-DependsOn, contains-extend,
  contains_of-Has,
}

-- An id without a slice has no dependencies.
DependsOn-unknown :
    (slices : List TaskSliceContract) (target a : String)
    → slice_of slices a ≡ none
    → DependsOn slices target a
    → ⊥
DependsOn-unknown slices target a h (directly c s found m) = cc (h, found)
DependsOn-unknown slices target a h (through c s b found m deep) = cc (h, found)

-- What a slice depends on is reached from one of its dependencies.
DependsOn-start :
    (slices : List TaskSliceContract) (target a : String)
    → DependsOn slices target a
    → (x : String) × ((contains (dependencies_of (slice_of slices a)) x ≡ true)
        × Reaches slices target x)
DependsOn-start slices target a (directly c s found m) = (
  target,
  (
    subst (λ o. contains (dependencies_of o) target ≡ true) (sym found)
        (contains_of-Has s.depends_on target m),
    inl refl,
  ),
)
DependsOn-start slices target a (through c s b found m deep) = (
  b,
  (
    subst (λ o. contains (dependencies_of o) b ≡ true) (sym found)
        (contains_of-Has s.depends_on b m),
    inr deep,
  ),
)

-- A result of the search and what it says.
abbrev Decided : List TaskSliceContract → String → String → Option Bool → Type 0
Decided slices target a o =
    (b : Bool) × ((o ≡ some b) × ((is_found o ≡ b) × ((b ≡ true) ↔ DependsOn slices target a)))

decided_known :
    (slices : List TaskSliceContract) (target a : String) (s : TaskSliceContract)
    → slice_of slices a ≡ some s
    → (b : Bool)
    → search (search_fuel slices s.depends_on) slices target [] (extend s.depends_on []) ≡ some b
    → (b ≡ true) ↔ DependsOn slices target a
decided_known slices target a s found true h = (
  λ t.
      elim (Any-extend (Reaches slices target) s.depends_on [] (
        search-true (search_fuel slices s.depends_on) slices target [] (extend s.depends_on [])
          h)) [
            | inl m ↦ dependencies_of-DependsOn slices target a (some s) found m
            | inr m ↦ elim m [ ]
          ],
  λ d. refl,
)
decided_known slices target a s found false h = (
  λ t. cc t,
  λ d.
      let (x, (m, r)) = DependsOn-start slices target a d in
      elim (search-false (search_fuel slices s.depends_on) slices target [] (extend s.depends_on [])
        h (λ c k. cc) x
        (ground (
          arith,
          contains-extend s.depends_on [] x,
          subst (λ o. contains (dependencies_of o) x ≡ true) found m,
        ))
        r) [ ],
)

is_found-some : (b : Bool) → is_found (some b) ≡ b
is_found-some true = refl
is_found-some false = refl

search_from-Decided :
    (slices : List TaskSliceContract) (target a : String) (o : Option TaskSliceContract)
    → slice_of slices a ≡ o
    → Decided slices target a (search_from slices o target)
unfolding search_from search_fuel
search_from-Decided slices target a none h =
    (false, (refl, (refl, (λ t. cc t, λ d. elim (DependsOn-unknown slices target a h d) [ ]))))
search_from-Decided slices target a (some s) h =
    let (b, e) =
      search-ends (search_fuel slices s.depends_on) slices target [] (extend s.depends_on [])
        (ground (arith, length-extend s.depends_on [])) in
    (b, (e, (ap is_found e ∙ is_found-some b, decided_known slices target a s h b e)))

-- The search of _depends_on_transitively ends with a result, and the result is true exactly when
-- the one slice depends on the other, directly or through other slices.
pub depends_on_transitively_lem :
    (slices : List TaskSliceContract) (a target : String)
    → (b : Bool) × ((search_from slices (slice_of slices a) target ≡ some b)
        × ((depends_on_transitively slices a target ≡ b)
            × ((b ≡ true) ↔ DependsOn slices target a)))
unfolding depends_on_transitively
depends_on_transitively_lem slices a target =
    search_from-Decided slices target a (slice_of slices a) refl
