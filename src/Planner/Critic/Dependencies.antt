-- ===== src/Planner/Critic/Dependencies.antt =====
-- The search of planner/critic.py for a slice among the dependencies of another,
-- `_depends_on_transitively`. The stack is a list whose head is its top. Each round of the loop costs
-- one unit of fuel; `search_fuel` counts the dependencies that can ever be pushed.
pub mod Fuel
pub mod Decided
pub mod Reached
use pgloom_engineering.Base.{
  ℕ, zero, suc, ◌+◌, String, Bool, true, false, Option, none, some, List, [], ◌∷◌, ◌++◌, length,
  if◌then◌else◌, contains, find_last, ◌==◌, ◌≡◌, Has,
}
use pgloom_engineering.Contracts.{TaskSliceContract}

-- `by_id.get(slice_id)`
unfoldable pub slice_of : List TaskSliceContract → String → Option TaskSliceContract
slice_of slices slice_id = find_last (λ s. s.slice_id == slice_id) slices

-- `stack.extend(ids)`
unfoldable pub extend : List String → List String → List String
extend [] stack = stack
extend (d ∷ ids) stack = extend ids (d ∷ stack)

-- The dependencies of a slice; none for an unknown id.
abbrev pub dependencies_of : Option TaskSliceContract → List String
dependencies_of none = []
dependencies_of (some s) = s.depends_on

-- The loop, from a set of ids seen and a stack. Without a result the fuel has run out.
unfoldable pub search :
    ℕ → List TaskSliceContract → String → List String → List String → Option Bool
unfolding extend slice_of
search zero slices target seen stack = none
search (suc fuel) slices target seen [] = some false
search (suc fuel) slices target seen (current ∷ stack) =
    let skipped = search fuel slices target seen stack in
    let deeper =
      search fuel slices target (current ∷ seen)
        (extend (dependencies_of (slice_of slices current)) stack) in
    if current == target then some true else if contains seen current then skipped else deeper

-- The number of dependencies of the slices that are not among the ids seen.
unfoldable pub unseen : List String → List TaskSliceContract → ℕ
unseen seen [] = 0
unseen seen (s ∷ rest) =
    (if contains seen s.slice_id then 0 else length s.depends_on) + unseen seen rest

unfoldable pub search_fuel : List TaskSliceContract → List String → ℕ
unfolding unseen
search_fuel slices stack = suc (length stack + unseen [] slices)

-- The result of the search, whose fuel is enough.
unfoldable pub search_from :
    List TaskSliceContract → Option TaskSliceContract → String → Option Bool
unfolding search search_fuel extend
search_from slices none target = some false
search_from slices (some s) target =
    search (search_fuel slices s.depends_on) slices target [] (extend s.depends_on [])

abbrev pub is_found : Option Bool → Bool
is_found (some true) = true
is_found _ = false

unfoldable pub depends_on_transitively : List TaskSliceContract → String → String → Bool
unfolding search_from slice_of
depends_on_transitively slices slice_id dependency_id =
    is_found (search_from slices (slice_of slices slice_id) dependency_id)

-- The target is a dependency of the slice with the given id, or of one of its dependencies.
pub data DependsOn (slices : List TaskSliceContract) (target : String) : String → Type 0 where
  directly :
      (a : String) (s : TaskSliceContract)
      → slice_of slices a ≡ some s
      → Has target s.depends_on
      → DependsOn slices target a
  through :
      (a : String) (s : TaskSliceContract) (b : String)
      → slice_of slices a ≡ some s
      → Has b s.depends_on
      → DependsOn slices target b
      → DependsOn slices target a
