-- ===== src/Base/Strings.antt =====
-- Python's `str` as its list of code points, with the methods that the program uses.
use Prim.Native.Nat.{ℕ, ◌-◌}
use Prim.Native.Char.{code}
use Prim.Native.String.{String}
use mathlib.Core.Path.{◌≡◌, refl}
use mathlib.Core.Logic.{◌↔◌}
use mathlib.Core.Bool.{Bool, true, false, ◌&&◌, ◌||◌}
use mathlib.Core.Option.{Option, none, some}
use mathlib.Core.List.{List, [], ◌∷◌, map}
use native.Mathlib.Omega.{arith}
use libhw.Base.Tests.{ltb, leb, ◌==◌, if◌then◌else◌}

abbrev pub Text : Type 0
Text = List ℕ

abbrev pub codes : String → Text
codes String.[] = []
codes (String.◌∷◌ c s) = code c ∷ codes s

-- `a == b`
unfoldable pub text_eq : Text → Text → Bool
text_eq [] [] = true
text_eq [] (y ∷ ys) = false
text_eq (x ∷ xs) [] = false
text_eq (x ∷ xs) (y ∷ ys) = x == y && text_eq xs ys

pub text_eq_iff : (a b : Text) → (text_eq a b ≡ true) ↔ (a ≡ b)
unfolding text_eq
text_eq_iff [] [] = ground arith
text_eq_iff [] (y ∷ ys) = ground arith
text_eq_iff (x ∷ xs) [] = ground arith
text_eq_iff (x ∷ xs) (y ∷ ys) = ground (arith, text_eq_iff xs ys)

pub text_eq_refl : (a : Text) → text_eq a a ≡ true
text_eq_refl a = (text_eq_iff a a).1 refl

-- `x in xs`, where `xs` is a set or a list of texts
unfoldable pub member : Text → List Text → Bool
unfolding text_eq
member x [] = false
member x (y ∷ ys) = text_eq x y || member x ys

-- `a < b`, by code points
unfoldable pub text_lt : Text → Text → Bool
text_lt [] [] = false
text_lt [] (y ∷ ys) = true
text_lt (x ∷ xs) [] = false
text_lt (x ∷ xs) (y ∷ ys) = if ltb x y then true else if x == y then text_lt xs ys else false

-- The characters that `str.isspace` accepts.
unfoldable pub is_space : ℕ → Bool
is_space c =
    leb 9 c && leb c 13
    || leb 28 c && leb c 32
    || c == 0x85
    || c == 0xa0
    || c == 0x1680
    || leb 0x2000 c && leb c 0x200a
    || c == 0x2028
    || c == 0x2029
    || c == 0x202f
    || c == 0x205f
    || c == 0x3000

-- `s.lstrip(...)`: drops what the test accepts
unfoldable pub lstrip_by : (ℕ → Bool) → Text → Text
lstrip_by p [] = []
lstrip_by p (c ∷ s) = if p c then lstrip_by p s else c ∷ s

unfoldable pub rstrip_step : (ℕ → Bool) → ℕ → Text → Text
rstrip_step p c [] = if p c then [] else c ∷ []
rstrip_step p c (d ∷ r) = c ∷ d ∷ r

-- `s.rstrip(...)`
unfoldable pub rstrip_by : (ℕ → Bool) → Text → Text
unfolding rstrip_step
rstrip_by p [] = []
rstrip_by p (c ∷ s) = rstrip_step p c (rstrip_by p s)

-- `s.strip()`
unfoldable pub strip : Text → Text
unfolding lstrip_by rstrip_by is_space
strip s = rstrip_by is_space (lstrip_by is_space s)

unfoldable pub is_digit : ℕ → Bool
is_digit c = leb b'0' c && leb c b'9'

unfoldable pub is_upper : ℕ → Bool
is_upper c = leb b'A' c && leb c b'Z'

unfoldable pub is_lower : ℕ → Bool
is_lower c = leb b'a' c && leb c b'z'

-- `str.upper` on one ASCII character
unfoldable pub upper_char : ℕ → ℕ
unfolding is_lower
upper_char c = if is_lower c then c - 32 else c

-- `s.upper()` of an ASCII text
unfoldable pub upper : Text → Text
unfolding upper_char
upper s = map upper_char s

-- `s.startswith(p)`
unfoldable pub starts_with : Text → Text → Bool
starts_with s [] = true
starts_with [] (x ∷ p) = false
starts_with (c ∷ s) (x ∷ p) = c == x && starts_with s p

-- `s` without the prefix `p`, if it has it
unfoldable pub strip_prefix : Text → Text → Option Text
strip_prefix s [] = some s
strip_prefix [] (x ∷ p) = none
strip_prefix (c ∷ s) (x ∷ p) = if c == x then strip_prefix s p else none

-- A text or `None` is true in a condition if it is there and not empty.
unfoldable pub truthy : Option Text → Bool
truthy none = false
truthy (some []) = false
truthy (some (c ∷ s)) = true

-- `o or d`
unfoldable pub or_else : Option Text → Text → Text
or_else none d = d
or_else (some []) d = d
or_else (some (c ∷ s)) d = c ∷ s
