-- ===== src/Base/Numeral.antt =====
-- Numbers in text: `f"{n}"`, `f"{n:08X}"`, `int(s, 10)` and `int(s, 16)`.
pub mod Hex
use Prim.Native.Nat.{ℕ, zero, suc, ◌+◌, ◌*◌, ◌-◌, ◌/◌, ◌%◌}
use mathlib.Core.Bool.{Bool, true, false, ◌&&◌}
use mathlib.Core.Option.{Option, none, some}
use mathlib.Core.List.{[], ◌∷◌, ◌++◌}
use libhw.Base.Tests.{ltb, leb, ◌==◌, if◌then◌else◌}
use libhw.Base.Lists.{length}
use libhw.Base.Strings.{Text, codes, is_digit, strip, strip_prefix}

unfoldable pub digit_char : ℕ → ℕ
digit_char d = if ltb d 10 then d + b'0' else d + 55

-- The digits of `n` in front of `out`, by a loop that divides: at most `fuel` digits.
unfoldable pub digits_loop : ℕ → ℕ → ℕ → Text → Text
unfolding digit_char
digits_loop base zero n out = out
digits_loop base (suc fuel) n out =
    let c = digit_char (n % base) in
    let rest = digits_loop base fuel (n / base) (c ∷ out) in if n / base == 0 then c ∷ out else rest

-- A number has fewer digits than its successor is large, so the fuel suffices.
unfoldable pub decimal : ℕ → Text
unfolding digits_loop
decimal n = digits_loop 10 (suc n) n []

unfoldable pub zeros : ℕ → Text
zeros zero = []
zeros (suc n) = b'0' ∷ zeros n

-- `f"{n:08X}"`
unfoldable pub hex8 : ℕ → Text
unfolding digits_loop zeros
hex8 n = let ds = digits_loop 16 (suc n) n [] in zeros (8 - length ds) ++ ds

-- `f"0x{n:08X}"`
unfoldable pub address_text : ℕ → Text
unfolding hex8
address_text n = codes "0x" ++ hex8 n

unfoldable pub hex_digit : ℕ → Option ℕ
unfolding is_digit
hex_digit c =
    if is_digit c
    then some (c - b'0')
    else if leb b'A' c && leb c b'F'
    then some (c - 55)
    else if leb b'a' c && leb c b'f'
    then some (c - 87)
    else none

-- The value of the digits behind `acc`. One underscore may stand in front of a digit; `none` is
-- `ValueError`. `after_digit` tells whether the text before was a digit or an underscore.
unfoldable pub hex_loop : Bool → ℕ → Text → Option ℕ
unfolding hex_digit
hex_loop after_digit acc [] = if after_digit then some acc else none
hex_loop after_digit acc (c ∷ s) =
    let skipped = hex_loop false acc s in
    if c == b'_'
    then (if after_digit then skipped else none)
    else elim (hex_digit c) [ none ↦ none | some d ↦ hex_loop true (acc * 16 + d) s ]

unfoldable pub int_16_at : Option Text → Option ℕ
unfolding hex_loop
int_16_at none = none
int_16_at (some []) = none
int_16_at (some (c ∷ r)) = hex_loop true 0 (c ∷ r)

-- `int(s, 16)` of a text that starts with `0x`.
unfoldable pub int_16 : Text → Option ℕ
unfolding strip_prefix strip int_16_at
int_16 s = int_16_at (strip_prefix (strip s) (codes "0x"))

unfoldable pub decimal_loop : ℕ → Text → Option ℕ
unfolding is_digit
decimal_loop acc [] = some acc
decimal_loop acc (c ∷ s) =
    let rest = decimal_loop (acc * 10 + (c - b'0')) s in if is_digit c then rest else none

-- `int(s)` of a text without sign, blanks and underscores
unfoldable pub int_10 : Text → Option ℕ
unfolding decimal_loop
int_10 [] = none
int_10 (c ∷ s) = decimal_loop 0 (c ∷ s)
