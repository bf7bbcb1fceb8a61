-- ===== src/Base/Codes.antt =====
-- Texts as lists of code points, for the code that walks or searches them.
-- `lower` folds the ASCII letters and the two other characters (U+0130, U+212A) whose lower case
-- holds an ASCII letter. The program searches for ASCII words only, for which no other one matters.
use Prim.Native.Nat.{ℕ, ◌+◌}
use Prim.Native.Char.{code}
use Prim.Native.String.{String}
use mathlib.Core.Bool.{Bool, true, false, ◌&&◌, ◌||◌}
use mathlib.Core.List.{List, [], ◌∷◌, ◌++◌, reverse}
use pgloom_engineering.Base.Tests.{leb, nat_eq, if◌then◌else◌}
use pgloom_engineering.Base.Lists.{any, is_empty}

abbrev pub codes : String → List ℕ
codes String.[] = []
codes (String.◌∷◌ c s) = code c ∷ codes s

abbrev pub between : ℕ → ℕ → ℕ → Bool
between lo hi c = leb lo c && leb c hi

-- `str.isspace` of one character
unfoldable pub is_space : ℕ → Bool
is_space c =
    between 9 13 c
    || between 28 32 c
    || nat_eq c 0x85
    || nat_eq c 0xa0
    || nat_eq c 0x1680
    || between 0x2000 0x200a c
    || between 0x2028 0x2029 c
    || nat_eq c 0x202f
    || nat_eq c 0x205f
    || nat_eq c 0x3000

unfoldable pub drop_while : (ℕ → Bool) → List ℕ → List ℕ
drop_while p [] = []
drop_while p (c ∷ s) = let rest = drop_while p s in if p c then rest else c ∷ s

unfoldable pub drop_while_end : (ℕ → Bool) → List ℕ → List ℕ
unfolding drop_while
drop_while_end p s = reverse (drop_while p (reverse s))

-- `s.strip()`
unfoldable pub strip : List ℕ → List ℕ
unfolding is_space drop_while drop_while_end
strip s = drop_while_end is_space (drop_while is_space s)

unfoldable pub lower_code : ℕ → List ℕ
lower_code c =
    if between b'A' b'Z' c
    then (c + 32) ∷ []
    else if nat_eq c 0x130
    then b'i' ∷ 0x307 ∷ []
    else if nat_eq c 0x212a
    then b'k' ∷ []
    else c ∷ []

unfoldable pub lower : List ℕ → List ℕ
unfolding lower_code
lower [] = []
lower (c ∷ s) = lower_code c ++ lower s

unfoldable pub is_prefix : List ℕ → List ℕ → Bool
is_prefix [] s = true
is_prefix (p ∷ ps) [] = false
is_prefix (p ∷ ps) (c ∷ s) = nat_eq p c && is_prefix ps s

-- `p in s`
unfoldable pub is_infix : List ℕ → List ℕ → Bool
unfolding is_prefix
is_infix p [] = is_empty p
is_infix p (c ∷ s) = is_prefix p (c ∷ s) || is_infix p s

-- `s.endswith(p)`
unfoldable pub is_suffix : List ℕ → List ℕ → Bool
unfolding is_prefix
is_suffix p s = is_prefix (reverse p) (reverse s)

-- `any(signal in s for signal in signals)`
unfoldable pub mentions_any : List String → List ℕ → Bool
unfolding is_infix
mentions_any signals s = any (λ signal. is_infix (codes signal) s) signals

unfoldable pub same_codes : List ℕ → List ℕ → Bool
same_codes [] [] = true
same_codes (c ∷ s) (d ∷ t) = nat_eq c d && same_codes s t
same_codes _ _ = false

-- `s.split(":", 1)[0]`
unfoldable pub before_colon : List ℕ → List ℕ
before_colon [] = []
before_colon (c ∷ s) = let rest = before_colon s in if nat_eq c b':' then [] else c ∷ rest
