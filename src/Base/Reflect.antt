-- ===== src/Base/Reflect.antt =====
-- Boolean tests and the statements that they decide.
use mathlib.Core.Path.{◌≡◌, refl, sym, ap, ◌∙◌, subst}
use mathlib.Core.Logic.{◌≢◌, ◌↔◌, ◌⊎◌, inl, inr}
use mathlib.Core.Bool.{Bool, true, false, not, ◌&&◌, ◌||◌}
use mathlib.Core.Option.{none, some}
use mathlib.Core.List.{List, [], ◌∷◌, ◌++◌, reverse, reverse-cons}
use Prim.Native.String.{String}
use native.Mathlib.Omega.{arith}
use text.Mathlib.Text.{◌==◌}
use text.Mathlib.TextEquality.{eq_iff}
use pgloom_engineering.Base.Tests.{if◌then◌else◌, Option-cases, Bool-cases}
use pgloom_engineering.Base.Lists.{any, find, find_last, All, Any}

pub same_iff : (s t : String) → ((s == t) ≡ true) ↔ (s ≡ t)
same_iff s t = eq_iff s t

pub differs_iff : (s t : String) → ((s == t) ≡ false) ↔ (s ≢ t)
differs_iff s t = (λ h e. cc (h, (eq_iff s t).1 e), λ ne. ground (arith, ne, (eq_iff s t).0))

pub both_iff :
    (a b : Bool) (P Q : Type 0) → (a ≡ true) ↔ P → (b ≡ true) ↔ Q → ((a && b) ≡ true) ↔ (P × Q)
both_iff true b P Q p q = (λ h. (p.0 refl, q.0 h), λ h. q.1 h.1)
both_iff false b P Q p q = (λ h. cc, λ h. p.1 h.0)

pub either_iff :
    (a b : Bool) (P Q : Type 0) → (a ≡ true) ↔ P → (b ≡ true) ↔ Q → ((a || b) ≡ true) ↔ (P ⊎ Q)
either_iff true b P Q p q = (λ h. inl (p.0 refl), λ h. refl)
either_iff false b P Q p q = (λ h. inr (q.0 h), λ h. elim h [ inl x ↦ cc (p.1 x) | inr y ↦ q.1 y ])

pub not_iff : (b : Bool) (P : Type 0) → (b ≡ false) ↔ P → (not b ≡ true) ↔ P
not_iff true P p = (λ h. cc, λ h. cc (p.1 h))
not_iff false P p = (λ h. p.0 refl, λ h. refl)

-- `or False` at the end of a list of alternatives
pub last_iff : (a : Bool) (P : Type 0) → (a ≡ true) ↔ P → ((a || false) ≡ true) ↔ P
last_iff true P p = (λ h. p.0 refl, λ h. refl)
last_iff false P p = (λ h. cc, λ h. p.1 h)

pub any_iff :
    {A : Type 0} (p : A → Bool) (P : A → Type 0) (xs : List A)
    → ((x : A) → (p x ≡ true) ↔ P x)
    → (any p xs ≡ true) ↔ Any P xs
any_iff p P [] f = (λ h. cc, λ h. elim h [ ])
any_iff p P (x ∷ xs) f = either_iff (p x) (any p xs) (P x) (Any P xs) (f x) (any_iff p P xs f)

pub false_iff : (b : Bool) (P : Type 0) → (b ≡ true) ↔ P → (b ≡ false) ↔ (P → ⊥)
false_iff true P p = (λ h. cc, λ h. absurd (h (p.0 refl)))
false_iff false P p = (λ h x. cc (p.1 x), λ h. refl)

module _ {A : Type 0} (p : A → Bool) where
  find-snoc :
      (xs : List A) (y : A)
      → find p (xs ++ y ∷ [])
        ≡ elim (find p xs) [ some x ↦ some x | none ↦ if p y then some y else none ]
  find-snoc [] y = refl
  find-snoc (x ∷ xs) y = elim (Bool-cases (p x)) [
    | inl e ↦ rw e refl
    | inr e ↦ rw (e, find-snoc xs y) refl
  ]

  -- Looking from the end is looking for the last one.
  pub find-reverse : (xs : List A) → find p (reverse xs) ≡ find_last p xs
  find-reverse [] = refl
  find-reverse (x ∷ xs) = rw (reverse-cons x xs, find-snoc (reverse xs) x, find-reverse xs) refl

-- An element of which `P` holds, and of none behind it.
abbrev pub IsLast : {A : Type 0} → (A → Type 0) → List A → A → Type 0
IsLast {A} P xs x =
    (before : List A) × (after : List A) × (xs ≡ before ++ (x ∷ after))
    × P x
    × All (λ y. P y → ⊥) after

module _ {A : Type 0} (p : A → Bool) (P : A → Type 0) (f : (x : A) → (p x ≡ true) ↔ P x) where
  find_last-none : (xs : List A) → find_last p xs ≡ none → All (λ y. P y → ⊥) xs
  find_last-none [] h = tt
  find_last-none (x ∷ xs) h = elim (Option-cases (find_last p xs)) [
    | inl e ↦ elim (Bool-cases (p x)) [
      | inl t ↦ cc (rw (e, t) at h)
      | inr t ↦ ((false_iff (p x) (P x) (f x)).0 t, find_last-none xs e)
    ]
    | inr (y, e) ↦ cc (rw e at h)
  ]

  find_last-IsLast : (xs : List A) (x : A) → find_last p xs ≡ some x → IsLast P xs x
  find_last-IsLast [] x h = cc
  find_last-IsLast (y ∷ xs) x h = elim (Option-cases (find_last p xs)) [
    | inl e ↦ elim (Bool-cases (p y)) [
      | inl t ↦
          let same : some y ≡ some x = rw (e, t) at h in
          let here : y ≡ x = cc same in
          ([], xs, ap (λ z. z ∷ xs) here, subst P here ((f y).0 t), find_last-none xs e)
      | inr t ↦ cc (rw (e, t) at h)
    ]
    | inr (z, e) ↦
        let (before, after, split, holds, none_behind) = find_last-IsLast xs x (e ∙ (rw e at h)) in
        (y ∷ before, after, ap (λ l. y ∷ l) split, holds, none_behind)
  ]

  none_found : (xs : List A) → All (λ y. P y → ⊥) xs → find_last p xs ≡ none
  none_found [] h = refl
  none_found (x ∷ xs) (out, h) = rw (none_found xs h, (false_iff (p x) (P x) (f x)).1 out) refl

  last_found :
      (before after : List A) (x : A)
      → P x
      → All (λ y. P y → ⊥) after
      → find_last p (before ++ (x ∷ after)) ≡ some x
  last_found [] after x holds h = rw (none_found after h, (f x).1 holds) refl
  last_found (y ∷ before) after x holds h = rw (last_found before after x holds h) refl

  -- `find` from the end finds exactly the last element of which `P` holds.
  pub find-reverse_iff : (xs : List A) (x : A) → (find p (reverse xs) ≡ some x) ↔ IsLast P xs x
  find-reverse_iff xs x = (
    λ h. find_last-IsLast xs x (sym (find-reverse p xs) ∙ h),
    λ h.
        let (before, after, split, holds, none_behind) = h in
        find-reverse p xs ∙ rw split (last_found before after x holds none_behind),
  )
