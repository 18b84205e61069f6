-- ===== src/Pdf/Range.antt =====
-- `expand_range` of tools/state/armpdf.py: the registers that one row of a summary names.
pub mod Elements
use libhw.Base.{
  List, Option, Text, [], codes, if◌then◌else◌, leb, length, ltb, map, none, range_from, some,
  strip, suc, text_eq, ℕ, ◌&&◌, ◌*◌, ◌++◌, ◌+◌, ◌-◌, ◌/◌, ◌==◌, ◌∷◌,
}
use libhw.Base.Numeral.{address_text, decimal, decimal_loop, digits_loop, int_16, zeros}
use libhw.Base.Regex.{Regex, fullmatch, group, group_of, lazy, match, seq, text_of_group}
use libhw.Base.Regex.Patterns.{cat, digits, lit, name_char, name_start, spaces}
use libhw.Pdf.Lines.{addr_re}

-- The address `lo + k * ((hi - lo) // (count - 1))`, or a stride of 4 for one register, as
-- `f"0x{address:08X}"` prints it. Python rounds a negative quotient down, and the sign of a negative
-- number takes one of the eight places.
unfoldable pub stride_up : ℕ → ℕ → ℕ → ℕ
stride_up lo hi n = if leb 2 n then (hi - lo) / (n - 1) else 4

unfoldable pub stride_down : ℕ → ℕ → ℕ → ℕ
stride_down lo hi n = ((lo - hi) + (n - 2)) / (n - 1)

unfoldable pub element_address : ℕ → ℕ → ℕ → ℕ → Text
unfolding address_text stride_up stride_down digits_loop zeros
element_address lo hi n k =
    if ltb hi lo && leb 2 n
    then (let fall = k * stride_down lo hi n in
        if leb fall lo
        then address_text (lo - fall)
        else (let ds = digits_loop 16 (suc (fall - lo)) (fall - lo) [] in
            codes "0x-" ++ (zeros (7 - length ds) ++ ds)))
    else address_text (lo + k * stride_up lo hi n)

-- `(?P<base>[A-Za-z_][A-Za-z0-9_]*?)(?P<lo>\d+)\s*-\s*(?P<base2>[A-Za-z_][A-Za-z0-9_]*?)(?P<hi>\d+)`
unfoldable pub name_range_re : Regex
unfolding cat name_start name_char digits spaces lit
name_range_re = cat (
    group (codes "base") (seq name_start (lazy name_char))
    ∷ group (codes "lo") digits
    ∷ spaces
    ∷ lit "-"
    ∷ spaces
    ∷ group (codes "base2") (seq name_start (lazy name_char))
    ∷ group (codes "hi") digits
    ∷ [])

-- `int` of digits that a pattern matched
unfoldable pub number : Text → ℕ
unfolding decimal_loop
number s = elim (decimal_loop 0 s) [ none ↦ 0 | some n ↦ n ]

-- `int(s, 16)` of an address that a pattern matched
unfoldable pub hex_value : Text → ℕ
unfolding int_16
hex_value s = elim (int_16 s) [ none ↦ 0 | some n ↦ n ]

-- The first and the last address of a cell.
unfoldable pub addresses : Text → Option (ℕ × ℕ)
unfolding match addr_re strip group_of hex_value text_of_group
addresses cell = elim (match addr_re (strip cell)) [
  | none ↦ none
  | some m ↦
      let lo = hex_value (text_of_group m "1") in
      some (lo, elim (group_of m "2") [ none ↦ lo | some t ↦ hex_value t ])
]

-- The `n` registers that start with `base` and the number `first`.
unfoldable pub elements : ℕ → ℕ → ℕ → Text → ℕ → List (Text × Text)
unfolding element_address decimal
elements lo hi n base first =
    map (λ k. (element_address lo hi n k, base ++ decimal (first + k))) (range_from 0 n)

-- The base, the first and the last number of a cell with a range of names.
unfoldable pub name_range : Text → Option (Text × ℕ × ℕ)
unfolding fullmatch name_range_re strip text_eq text_of_group number
name_range cell = elim (fullmatch name_range_re (strip cell)) [
  | none ↦ none
  | some m ↦
      if text_eq (text_of_group m "base") (text_of_group m "base2")
      then some
          (text_of_group m "base", number (text_of_group m "lo"), number (text_of_group m "hi"))
      else none
]

-- `expand_range`
unfoldable pub expand_range : Text → Text → List (Text × Text)
unfolding addresses name_range strip address_text elements
expand_range addr_cell name_cell = elim (addresses addr_cell) [
  | none ↦ []
  | some (lo, hi) ↦ elim (name_range name_cell) [
    | none ↦ if lo == hi then (address_text lo, strip name_cell) ∷ [] else []
    | some (base, first, last) ↦
        if ltb last first then [] else elements lo hi (last - first + 1) base first
  ]
]
