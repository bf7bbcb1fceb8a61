-- ===== src/Base/Texts.antt =====
-- Texts as the program uses them: equality, membership in a list or a set, an optional column read
-- as `str(x or "")`, and joining.
use Prim.Native.String.{String, ◌++◌ as ◌<>◌}
use mathlib.Core.Path.{◌≡◌, refl, sym}
use mathlib.Core.Bool.{Bool, true, false, ◌||◌, not}
use mathlib.Core.Option.{Option, none, some}
use mathlib.Core.List.{List, [], ◌∷◌, ◌++◌}
use native.Mathlib.Omega.{arith}
use text.Mathlib.Text.{◌==◌}
use text.Mathlib.TextEquality.{eq_iff}
use text.Mathlib.TextPositions.{eq_refl}
use pgloom_engineering.Base.Lists.{any}
use pgloom_engineering.Base.Elements.{Has}
use mathlib.Core.Logic.{inl, inr}
use pgloom_engineering.Base.Tests.{Bool-cases}

-- `a in xs`
abbrev pub contains : List String → String → Bool
contains [] a = false
contains (x ∷ xs) a = a == x || contains xs a

-- `bool(s)`
abbrev pub is_nonempty : String → Bool
is_nonempty s = not (s == "")

-- `str(x or "")` of an optional text
abbrev pub or_empty : Option String → String
or_empty none = ""
or_empty (some s) = s

-- `str(x) if x else None`
abbrev pub nonempty : Option String → Option String
nonempty none = none
nonempty (some s) = elim (is_nonempty s) [ true ↦ some s | false ↦ none ]

-- `sep.join(xs)`
unfoldable pub join : String → List String → String
join sep [] = ""
join sep (x ∷ []) = x
join sep (x ∷ y ∷ ys) = x <> sep <> join sep (y ∷ ys)

pub contains-head : (a : String) (xs : List String) → contains (a ∷ xs) a ≡ true
contains-head a xs = ground (arith, eq_refl a)

pub contains-append :
    (xs ys : List String) (a : String) → contains (xs ++ ys) a ≡ (contains xs a || contains ys a)
contains-append [] ys a = refl
contains-append (x ∷ xs) ys a = ground (arith, contains-append xs ys a)

-- A text in the list keeps being in it behind another element.
pub contains-cons :
    (x a : String) (xs : List String) → contains xs a ≡ true → contains (x ∷ xs) a ≡ true
contains-cons x a xs h = ground arith

pub eq-of_eq : (s t : String) → (s == t) ≡ true → s ≡ t
eq-of_eq s t h = (eq_iff s t).0 h

-- What every text of a list passes, a text found in the list passes.
pub any-false-at :
    (p : String → Bool) (xs : List String) (a : String)
    → any p xs ≡ false
    → contains xs a ≡ true
    → p a ≡ false
any-false-at p [] a h m = cc
any-false-at p (x ∷ xs) a h m = ground (arith, eq_iff a x, any-false-at p xs a)

pub Has-of_contains : (xs : List String) (a : String) → contains xs a ≡ true → Has a xs
Has-of_contains [] a h = cc
Has-of_contains (x ∷ xs) a h = elim (Bool-cases (a == x)) [
  | inl same ↦ inl (sym (eq-of_eq a x same))
  | inr other ↦ inr (Has-of_contains xs a (ground (arith, h, other)))
]
