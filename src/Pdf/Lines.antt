-- ===== src/Pdf/Lines.antt =====
-- One line of a table in tools/state/armpdf.py: its cells, and what kind of line it is.
use libhw.Base.{
  Bool, List, Option, Text, [], all, codes, count, false, if◌then◌else◌, is_digit, is_lower,
  is_upper, keep, leb, length, ltb, map, member, none, not, some, strip, strip_prefix, text_eq,
  ◌&&◌, ◌==◌, ◌||◌, ◌∷◌,
}
use libhw.Base.Regex.{
  Regex, at_end, at_start, char, found_in, fullmatch, fullmatches, group, matches, seq, star,
  text_of_group,
}
use libhw.Base.Regex.Patterns.{
  any_of, at_least, between, cat, digit, exactly, hex_number, lit, name_char, name_start, opt,
  small, space, spaces, spaces1, times,
}
use libhw.Base.Regex.Texts.{split_columns}
use libhw.Sources.Lock.{is_empty}

-- `_split_cells`
unfoldable pub split_cells : Text → List Text
unfolding split_columns strip is_empty
split_cells line = keep (λ c. not (is_empty c)) (map strip (split_columns 0 (strip line)))

-- `HEADER_TOKENS`
unfoldable pub header_tokens : List Text
header_tokens =
    codes "Address"
    ∷ codes "Name"
    ∷ codes "Type"
    ∷ codes "Reset"
    ∷ codes "Offset"
    ∷ codes "Register"
    ∷ codes "Description"
    ∷ []

-- `_is_header`
unfoldable pub is_header : Text → Bool
unfolding split_cells header_tokens member
is_header line =
    let cells = split_cells line in
    if ltb (length cells) 2 then false else leb 2 (count (λ c. member c header_tokens) cells)

-- `ADDR_RE`
unfoldable pub addr_re : Regex
unfolding cat hex_number spaces lit opt
addr_re = cat (
    at_start
    ∷ group (codes "1") hex_number
    ∷ opt (cat (spaces ∷ lit "-" ∷ spaces ∷ group (codes "2") hex_number ∷ []))
    ∷ at_end
    ∷ [])

-- `FURNITURE_RE`
unfoldable pub furniture_re : Regex
unfolding any_of cat lit spaces1 spaces times digit exactly
furniture_re = any_of (
    cat (lit "Copyright" ∷ spaces1 ∷ exactly (169 ∷ []) ∷ [])
    ∷ lit "Non-Confidential"
    ∷ cat (at_start ∷ spaces ∷ lit "ARM" ∷ spaces1 ∷ lit "DDI" ∷ space ∷ [])
    ∷ cat (at_start ∷ spaces ∷ lit "ID" ∷ times 6 digit ∷ [])
    ∷ lit "All rights reserved"
    ∷ [])

-- `TOC_LINE_RE`
unfoldable pub toc_line_re : Regex
unfolding cat at_least lit spaces is_upper is_lower is_digit
toc_line_re = cat (
    at_least 4 (lit ".")
    ∷ spaces
    ∷ star (char (λ c. is_upper c || is_lower c || is_digit c || c == b'-'))
    ∷ spaces
    ∷ at_end
    ∷ [])

-- `[A-Za-z_][A-Za-z0-9_]{1,30}`
unfoldable pub name_1_30 : Regex
unfolding name_start between name_char
name_1_30 = seq name_start (between 1 30 name_char)

unfoldable pub row_name_re : Regex
unfolding name_1_30 cat opt spaces lit
row_name_re = cat (name_1_30 ∷ opt (cat (spaces ∷ lit "-" ∷ spaces ∷ name_1_30 ∷ [])) ∷ [])

unfoldable pub first_cell_fits : List Text → Bool
unfolding matches fullmatches addr_re row_name_re
first_cell_fits [] = false
first_cell_fits (first ∷ cells) = matches addr_re first || fullmatches row_name_re first

-- `_looks_like_row`
unfoldable pub looks_like_row : Text → Bool
unfolding split_cells found_in furniture_re first_cell_fits
looks_like_row line =
    let cells = split_cells line in
    if ltb (length cells) 2
    then false
    else if found_in furniture_re line
    then false
    else first_cell_fits cells

unfoldable pub is_alpha : Text → Bool
unfolding is_upper is_lower is_empty
is_alpha s = not (is_empty s) && all (λ c. is_upper c || is_lower c) s

-- The first known token that the text is, or is but for one or two letters behind it.
unfoldable pub known_token : Text → List Text → Option Text
unfolding text_eq strip_prefix is_alpha
known_token v [] = none
known_token v (tok ∷ toks) =
    let rest = known_token v toks in
    if text_eq v tok then some v else elim (strip_prefix v tok) [
      | none ↦ rest
      | some tail ↦ if is_alpha tail && leb (length tail) 2 then some tok else rest
    ]

unfoldable pub dash_note_re : Regex
unfolding lit between small
dash_note_re = seq (lit "-") (between 1 2 small)

unfoldable pub hex_note_re : Regex
unfolding hex_number between small
hex_note_re = seq (group (codes "1") hex_number) (between 1 2 small)

-- `strip_footnote`
unfoldable pub strip_footnote : Text → List Text → Text
unfolding strip known_token fullmatches dash_note_re fullmatch hex_note_re text_of_group
strip_footnote value known =
    let v = strip value in
    elim (known_token v known) [
      | some tok ↦ tok
      | none ↦
          if fullmatches dash_note_re v
          then codes "-"
          else elim (fullmatch hex_note_re v) [ none ↦ v | some m ↦ text_of_group m "1" ]
    ]
