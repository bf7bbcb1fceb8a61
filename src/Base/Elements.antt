-- ===== src/Base/Elements.antt =====
-- Elements of lists, and lemmas on the images of lists.
use Prim.Native.Nat.{◌+◌, ◌≤◌}
use mathlib.Core.Path.{◌≡◌, refl, ap, subst}
use mathlib.Core.Logic.{◌⊎◌, inl, inr}
use mathlib.Core.Bool.{Bool, true}
use mathlib.Core.Option.{some}
use mathlib.Core.List.{List, [], ◌∷◌, ◌++◌, map}
use native.Mathlib.Omega.{arith}
use pgloom_engineering.Base.Tests.{Bool-cases, Option-cases}
use pgloom_engineering.Base.Lists.{length, filter, any, find, find_last, All, Any}

-- `x` is an element of the list.
abbrev pub Has : {A : Type 0} → A → List A → Type 0
Has x xs = Any (λ y. y ≡ x) xs

pub All-at {κ} : {A : Type 0} (P : A → Type κ) {x : A} (xs : List A) → All P xs → Has x xs → P x
All-at P [] h m = elim m [ ]
All-at P (y ∷ xs) h (inl e) = subst P e h.0
All-at P (y ∷ xs) h (inr m) = All-at P xs h.1 m

pub All-both :
    {A : Type 0} (P Q : A → Type 0) (xs : List A) → All P xs → All Q xs → All (λ x. P x × Q x) xs
All-both P Q [] h k = tt
All-both P Q (x ∷ xs) h k = ((h.0, k.0), All-both P Q xs h.1 k.1)

module _ {ℓ} {A : Type ℓ} where
  pub length-append : (xs ys : List A) → length (xs ++ ys) ≡ length xs + length ys
  length-append [] ys = omega arith
  length-append (x ∷ xs) ys = omega (arith, length-append xs ys)

  pub length-snoc : (xs : List A) (y : A) → length (xs ++ y ∷ []) ≡ length xs + 1
  length-snoc [] y = omega arith
  length-snoc (x ∷ xs) y = omega (arith, length-snoc xs y)

module _ {ℓ} {A : Type ℓ} where
  pub any-append_right : (p : A → Bool) (xs ys : List A) → any p ys ≡ true → any p (xs ++ ys) ≡ true
  any-append_right p [] ys h = h
  any-append_right p (x ∷ xs) ys h = ground (arith, any-append_right p xs ys h)

-- To show something of all images, show it of the image of each element.
pub All-map_of_Has {κ} :
    {A B : Type 0} (P : B → Type κ) (f : A → B) (xs : List A)
    → ((x : A) → Has x xs → P (f x))
    → All P (map f xs)
All-map_of_Has P f [] h = tt
All-map_of_Has P f (x ∷ xs) h = (h x (inl refl), All-map_of_Has P f xs (λ y m. h y (inr m)))

pub map-append_lem :
    {A B : Type 0} (f : A → B) (xs ys : List A) → map f (xs ++ ys) ≡ map f xs ++ map f ys
map-append_lem f [] ys = refl
map-append_lem f (x ∷ xs) ys = ap (◌∷◌ (f x)) (map-append_lem f xs ys)

pub find_last-Has :
    {A : Type 0} (p : A → Bool) (xs : List A) (x : A) → find_last p xs ≡ some x → Has x xs
find_last-Has p [] x h = cc
find_last-Has p (y ∷ xs) x h = elim (Option-cases (find_last p xs)) [
  | inl absent ↦ elim (Bool-cases (p y)) [
    | inl here ↦ inl (cc (h, absent, here))
    | inr other ↦ cc (h, absent, other)
  ]
  | inr (z, found) ↦ inr (find_last-Has p xs x (cc (h, found)))
]

pub find-Has : {A : Type 0} (p : A → Bool) (xs : List A) (x : A) → find p xs ≡ some x → Has x xs
find-Has p [] x h = cc
find-Has p (y ∷ xs) x h = elim (Bool-cases (p y)) [
  | inl here ↦ inl (cc (h, here))
  | inr other ↦ inr (find-Has p xs x (cc (h, other)))
]

pub Has-append_left : {A : Type 0} (x : A) (xs ys : List A) → Has x xs → Has x (xs ++ ys)
Has-append_left x [] ys m = elim m [ ]
Has-append_left x (y ∷ xs) ys (inl e) = inl e
Has-append_left x (y ∷ xs) ys (inr m) = inr (Has-append_left x xs ys m)

pub Has-append_cases :
    {A : Type 0} (x : A) (xs ys : List A) → Has x (xs ++ ys) → Has x xs ⊎ Has x ys
Has-append_cases x [] ys m = inr m
Has-append_cases x (y ∷ xs) ys (inl e) = inl (inl e)
Has-append_cases x (y ∷ xs) ys (inr m) = elim (Has-append_cases x xs ys m) [
  | inl left ↦ inl (inr left)
  | inr right ↦ inr right
]

pub Has-singleton : {A : Type 0} (x y : A) → Has x (y ∷ []) → y ≡ x
Has-singleton x y (inl e) = e
Has-singleton x y (inr m) = elim m [ ]

-- An element that the function leaves alone is an element of the image.
pub Has-map_fixed :
    {A : Type 0} (f : A → A) (x : A) (xs : List A) → Has x xs → f x ≡ x → Has x (map f xs)
Has-map_fixed f x [] m e = elim m [ ]
Has-map_fixed f x (y ∷ xs) (inl h) e = inl (cc (h, e))
Has-map_fixed f x (y ∷ xs) (inr m) e = inr (Has-map_fixed f x xs m e)

pub Has-map : {A B : Type 0} (f : A → B) (xs : List A) (x : A) → Has x xs → Has (f x) (map f xs)
Has-map f [] x m = elim m [ ]
Has-map f (y ∷ xs) x (inl e) = inl (ap f e)
Has-map f (y ∷ xs) x (inr m) = inr (Has-map f xs x m)

pub map-id : {A : Type 0} (xs : List A) → map (λ x. x) xs ≡ xs
map-id [] = refl
map-id (x ∷ xs) = ap (◌∷◌ x) (map-id xs)

pub map-map :
    {A B C : Type 0} (f : B → C) (g : A → B) (xs : List A)
    → map f (map g xs) ≡ map (λ x. f (g x)) xs
map-map f g [] = refl
map-map f g (x ∷ xs) = ap (◌∷◌ (f (g x))) (map-map f g xs)

-- A test of the images is a test of the elements.
pub any-map_of_Has :
    {A B : Type 0} (p : B → Bool) (f : A → B) (q : A → Bool) (xs : List A)
    → ((x : A) → Has x xs → p (f x) ≡ q x)
    → any p (map f xs) ≡ any q xs
any-map_of_Has p f q [] h = refl
any-map_of_Has p f q (x ∷ xs) h =
    rw (h x (inl refl), any-map_of_Has p f q xs (λ y m. h y (inr m))) refl

pub length-filter-map_le :
    {A B : Type 0} (p : B → Bool) (f : A → B) (q : A → Bool) (xs : List A)
    → ((x : A) → Has x xs → p (f x) ≡ true → q x ≡ true)
    → length (filter p (map f xs)) ≤ length (filter q xs)
length-filter-map_le p f q [] h = omega arith
length-filter-map_le p f q (x ∷ xs) h =
    ground (arith, h x (inl refl), length-filter-map_le p f q xs (λ y m. h y (inr m)))
