-- ===== src/Base/Json.antt =====
-- A decoded JSON value, for the columns and fields that the program passes on as `dict[str, Any]`.
use Prim.Native.Nat.{ℕ}
use Prim.Native.String.{String}
use mathlib.Core.Bool.{Bool, true, false}
use mathlib.Core.Option.{Option, none, some}
use mathlib.Core.List.{List, [], ◌∷◌}
use text.Mathlib.Text.{◌==◌}
use pgloom_engineering.Base.Tests.{nat_eq, if◌then◌else◌}
use pgloom_engineering.Base.Texts.{is_nonempty}
use pgloom_engineering.Base.Codes.{codes, between}

mutual
  pub data Json : Type 0 where
    null : Json
    boolean : Bool → Json
    number : String → Json
    string : String → Json
    array : Items → Json
    object : Fields → Json

  pub data Items : Type 0 where
    nil : Items
    cons : Json → Items → Items

  pub data Fields : Type 0 where
    end : Fields
    field : String → Json → Fields → Fields

-- `d.get(key)`
unfoldable pub get : String → Fields → Option Json
get key end = none
get key (field k v rest) = let later = get key rest in if k == key then some v else later

-- Whether a number, written out, has a digit other than zero in front of its exponent.
nonzero_digits : List ℕ → Bool
nonzero_digits [] = false
nonzero_digits (c ∷ s) =
    let rest = nonzero_digits s in
    if between b'1' b'9' c
    then true
    else if nat_eq c b'e'
    then false
    else if nat_eq c b'E'
    then false
    else rest

-- `bool(value)`
unfoldable pub is_truthy : Json → Bool
unfolding nonzero_digits
is_truthy null = false
is_truthy (boolean b) = b
is_truthy (number n) = nonzero_digits (codes n)
is_truthy (string s) = is_nonempty s
is_truthy (array nil) = false
is_truthy (array (cons v vs)) = true
is_truthy (object end) = false
is_truthy (object (field k v rest)) = true

-- `value == s` for a text `s`
unfoldable pub is_text : Json → String → Bool
is_text (string t) s = t == s
is_text _ s = false
