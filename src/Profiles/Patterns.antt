-- ===== src/Profiles/Patterns.antt =====
-- The row patterns of tools/state/profiles.py.
use libhw.Base.{[], codes, ◌==◌, ◌||◌, ◌∷◌}
use libhw.Base.Regex.{Regex, at_end, at_start, boundary, char, group, lazy, not_ahead, seq, star}
use libhw.Base.Regex.Patterns.{
  any_of, cap, cap_char, cat, digit, digits, dot, hex_number, identifier, lit, name_char,
  name_start, opt, plus, small, spaces, spaces1, spaces2, up_to,
}

-- `_ACCESS`
unfoldable pub access_re : Regex
unfolding cat any_of lit opt spaces1
access_re = cat (
    any_of (
      lit "RW or RO"
      ∷ lit "RAZ/WI"
      ∷ lit "RO"
      ∷ lit "RW"
      ∷ lit "WO"
      ∷ lit "RAZ"
      ∷ lit "WI"
      ∷ lit "-"
      ∷ [])
    ∷ opt (seq spaces1 (any_of (lit "clear" ∷ lit "only" ∷ lit "once" ∷ [])))
    ∷ [])

-- `_ADDR`
unfoldable pub address_re : Regex
unfolding cat hex_number opt spaces lit digit small any_of
address_re = cat (
    hex_number
    ∷ opt (cat (spaces ∷ lit "+" ∷ spaces ∷ star digit ∷ small ∷ []))
    ∷ opt (
        cat
          (opt (lit " ") ∷ any_of (lit "-" ∷ lit "to" ∷ []) ∷ opt (lit " ") ∷ opt hex_number ∷ []))
    ∷ [])

-- `_NAME`
unfoldable pub name_re : Regex
unfolding cat any_of lit name_start name_char opt up_to plus digits spaces identifier
name_re = any_of (
    lit "-"
    ∷ cat (
        name_start
        ∷ star name_char
        ∷ opt (lit "_")
        ∷ up_to 2 (seq (opt (lit " ")) (plus name_char))
        ∷ opt (cat (lit "[" ∷ digits ∷ lit ":" ∷ digits ∷ lit "]" ∷ []))
        ∷ opt (
            cat (
              spaces
              ∷ lit "-"
              ∷ spaces
              ∷ not_ahead (
                  seq (any_of (lit "RW" ∷ lit "RO" ∷ lit "WO" ∷ lit "RAZ" ∷ lit "WI" ∷ []))
                    boundary)
              ∷ identifier
              ∷ []))
        ∷ [])
    ∷ [])

-- `_ROW_RE`
unfoldable pub row_re : Regex
unfolding cat spaces spaces2 opt lit small dot address_re name_re access_re
row_re = cat (
    at_start
    ∷ spaces
    ∷ group (codes "addr") address_re
    ∷ opt (
        group (codes "adash")
          (cat (opt (lit " ") ∷ lit "-" ∷ not_ahead (seq spaces (lit "0x")) ∷ [])))
    ∷ spaces2
    ∷ group (codes "name") name_re
    ∷ opt (group (codes "ndash") (seq (opt (lit " ")) (lit "-")))
    ∷ opt (cat (spaces2 ∷ group (codes "type") access_re ∷ opt small ∷ []))
    ∷ opt (seq spaces2 (group (codes "rest") (star dot)))
    ∷ at_end
    ∷ [])

-- `[-…]`
unfoldable pub dash_or_dots : Regex
dash_or_dots = char (λ c. c == b'-' || c == 0x2026)

-- `_RESERVED_RE`
unfoldable pub reserved_re : Regex
unfolding cat spaces spaces2 opt lit address_re dash_or_dots
reserved_re = cat (
    at_start
    ∷ spaces
    ∷ group (codes "addr") address_re
    ∷ opt (lit " ")
    ∷ opt (lit "-")
    ∷ spaces2
    ∷ dash_or_dots
    ∷ spaces2
    ∷ dash_or_dots
    ∷ spaces2
    ∷ [])

-- `_CONT_RE`
unfoldable pub cont_re : Regex
unfolding cat spaces spaces2 hex_number identifier
cont_re = cat (
    at_start
    ∷ spaces
    ∷ group (codes "addr") hex_number
    ∷ spaces2
    ∷ group (codes "name") identifier
    ∷ boundary
    ∷ [])

-- `^\s*0x[0-9A-Fa-f]+`, and with `\s*$` behind it
unfoldable pub hex_line_re : Regex
unfolding cat spaces hex_number
hex_line_re = cat (at_start ∷ spaces ∷ hex_number ∷ [])

unfoldable pub bare_line_re : Regex
unfolding cat spaces hex_number
bare_line_re = cat (at_start ∷ spaces ∷ hex_number ∷ spaces ∷ at_end ∷ [])

-- `(?:-|to)\s*$`
unfoldable pub open_range_re : Regex
unfolding cat any_of lit spaces
open_range_re = cat (any_of (lit "-" ∷ lit "to" ∷ []) ∷ spaces ∷ at_end ∷ [])

-- `_SLICE_RE`
unfoldable pub slice_re : Regex
unfolding cat identifier lit digits
slice_re = cat (
    at_start
    ∷ group (codes "base") identifier
    ∷ lit "["
    ∷ group (codes "hi") digits
    ∷ lit ":"
    ∷ group (codes "lo") digits
    ∷ lit "]"
    ∷ at_end
    ∷ [])

-- `\b([A-Z][A-Z0-9_]*?)(\d+)\s*-\s*([A-Z][A-Z0-9_]*?)(\d+)\b`
unfoldable pub described_range_re : Regex
unfolding cat cap cap_char digits spaces lit
described_range_re = cat (
    boundary
    ∷ group (codes "1") (seq cap (lazy cap_char))
    ∷ group (codes "2") digits
    ∷ spaces
    ∷ lit "-"
    ∷ spaces
    ∷ group (codes "3") (seq cap (lazy cap_char))
    ∷ group (codes "4") digits
    ∷ boundary
    ∷ [])

-- `([A-Z][A-Z0-9_]*?[0-9A-Z_])([a-z])`
unfoldable pub noted_name_re : Regex
unfolding cat cap cap_char small
noted_name_re =
    cat
      (group (codes "1") (cat (cap ∷ lazy cap_char ∷ cap_char ∷ [])) ∷ group (codes "2") small ∷ [])
