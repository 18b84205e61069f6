-- ===== src/Profiles/Named.antt =====
-- The row parsers of tools/state/profiles.py that make one record of a row or of a line.
use libhw.Base.{
  List, Option, Text, [], codes, false, if◌then◌else◌, none, not, or_else, some, strip, text_eq, ℕ,
  ◌++◌, ◌==◌, ◌||◌, ◌∷◌,
}
use libhw.Base.Regex.{
  Regex, at_end, at_start, boundary, char, fullmatches, group, lazy, match, search, seq, star,
  text_of_group,
}
use libhw.Base.Regex.Patterns.{
  any_of, at_least, cap, cap_char, cat, digits, dot, hex_number, identifier, lit, lit_i, non_space,
  opt, plus, plus_lazy, space, spaces, spaces1, spaces2,
}
use libhw.Base.Regex.Texts.{lower}
use libhw.Importer.Rules.{RawRecord}
use libhw.Pdf.Lines.{strip_footnote}
use libhw.Pdf.Table.{Row, Table, get_cell}
use libhw.Profiles.Expand.{is_reserved_row}
use libhw.Profiles.Row.{reserved_record}
use libhw.Sources.Lock.{is_empty}

unfoldable pub plain_record : Text → Option Text → Text → Option Text → Text → ℕ → RawRecord
plain_record name address access reset description page = record {
  name = some name;
  address = address;
  access = access;
  reset = reset;
  description = description;
  reserved = false;
  page = some page;
  sysm = none;
  alt_name = none;
}

-- `(row.get(...) or "").strip()`
unfoldable pub cell_text : Row → List Text → Text
unfolding get_cell or_else strip
cell_text row names = strip (or_else (get_cell row names) [])

-- `_ID_NAME_RE`
unfoldable pub id_name_re : Regex
unfolding cat any_of lit_i spaces digits
id_name_re = cat (
    group (codes "1") (any_of (lit_i "Peripheral" ∷ lit_i "Component" ∷ []))
    ∷ spaces
    ∷ lit_i "ID"
    ∷ spaces
    ∷ group (codes "2") digits
    ∷ [])

unfoldable pub id_register_name : Text → Text
unfolding search id_name_re text_of_group text_eq lower
id_register_name raw_name = elim (search id_name_re raw_name) [
  | none ↦ raw_name
  | some (before, m) ↦
      (if text_eq (lower (text_of_group m "1")) (codes "peripheral")
        then codes "PIDR"
        else codes "CIDR")
      ++ text_of_group m "2"
]

unfoldable pub value_row : Row → List RawRecord
unfolding cell_text id_register_name plain_record strip_footnote or_else get_cell is_empty
value_row row =
    let addr = cell_text row (codes "Address" ∷ []) in
    let raw_name = cell_text row (codes "Register" ∷ codes "Name" ∷ []) in
    if is_empty addr || is_empty raw_name
    then []
    else plain_record (id_register_name raw_name) (some addr) (codes "RO")
        (some (strip_footnote (or_else (get_cell row (codes "Value" ∷ [])) []) [])) raw_name
        row.page
      ∷ []

unfoldable pub flat_map {ℓ κ} : {A : Type ℓ} {B : Type κ} → (A → List B) → List A → List B
flat_map f [] = []
flat_map f (x ∷ xs) = f x ++ flat_map f xs

-- `parse_addr_register_value`
unfoldable pub parse_addr_register_value : Table → List RawRecord
unfolding flat_map value_row
parse_addr_register_value table = flat_map value_row table.rows

-- `[A-Z][A-Z0-9_]*`
unfoldable pub cap_name : Regex
unfolding cap cap_char
cap_name = seq cap (star cap_char)

unfoldable pub rom_row : Row → List RawRecord
unfolding cell_text is_empty fullmatches cap_name plain_record
rom_row row =
    let name = cell_text row (codes "Name" ∷ []) in
    if is_empty name || not (fullmatches cap_name name)
    then []
    else plain_record name (some (cell_text row (codes "Offset" ∷ []))) (codes "RO")
        (some (cell_text row (codes "Value" ∷ []))) (cell_text row (codes "Description" ∷ []))
        row.page
      ∷ []

-- `parse_offset_value_name`
unfoldable pub parse_offset_value_name : Table → List RawRecord
unfolding flat_map rom_row
parse_offset_value_name table = flat_map rom_row table.rows

-- `_FP_RE`
unfoldable pub binary : Regex
unfolding lit plus
binary = seq (lit "0b") (plus (char (λ c. c == b'0' || c == b'1')))

unfoldable pub fp_re : Regex
unfolding cat spaces spaces2 opt lit dot binary identifier
fp_re = cat (
    at_start
    ∷ spaces
    ∷ group (codes "enc") (seq binary (opt (cat (spaces ∷ lit "-" ∷ spaces ∷ binary ∷ []))))
    ∷ spaces2
    ∷ group (codes "name") identifier
    ∷ spaces2
    ∷ group (codes "desc") (star dot)
    ∷ at_end
    ∷ [])

unfoldable pub fp_line : ℕ × Text → List RawRecord
unfolding match fp_re text_of_group strip is_reserved_row reserved_record or_else plain_record
fp_line (page, line) = elim (match fp_re line) [
  | none ↦ []
  | some m ↦
      let name = text_of_group m "name" in
      let desc = strip (text_of_group m "desc") in
      let enc = text_of_group m "enc" in
      if is_reserved_row name desc
      then reserved_record enc (codes "-") (or_else (some desc) (codes "Reserved")) page ∷ []
      else plain_record name (some enc) (codes "RW") none desc page ∷ []
]

-- `parse_fp_common_block`
unfoldable pub parse_fp_common_block : Table → List RawRecord
unfolding flat_map fp_line
parse_fp_common_block table = flat_map fp_line table.raw_lines

unfoldable pub type_re : Regex
unfolding any_of lit
type_re = any_of (lit "RO" ∷ lit "RW" ∷ lit "WO" ∷ [])

-- `_OTN_RE`
unfoldable pub otn_re : Regex
unfolding cat spaces spaces2 hex_number type_re plus_lazy dot
otn_re = cat (
    at_start
    ∷ spaces
    ∷ group (codes "off") hex_number
    ∷ spaces2
    ∷ group (codes "type") type_re
    ∷ spaces2
    ∷ group (codes "rest") (plus_lazy dot)
    ∷ spaces
    ∷ at_end
    ∷ [])

-- `\(([A-Z][A-Z0-9_]*)\)`
unfoldable pub parens_re : Regex
unfolding cat lit cap_name
parens_re = cat (lit "(" ∷ group (codes "1") cap_name ∷ lit ")" ∷ [])

unfoldable pub offset_line : ℕ × Text → List RawRecord
unfolding match otn_re text_of_group search parens_re plain_record strip
offset_line (page, line) = elim (match otn_re line) [
  | none ↦ []
  | some m ↦
      let rest = text_of_group m "rest" in
      elim (search parens_re rest) [
        | none ↦ []
        | some (before, nm) ↦
            plain_record (text_of_group nm "1") (some (text_of_group m "off"))
              (text_of_group m "type") none (strip rest) page
            ∷ []
      ]
]

-- `parse_offset_type_name`
unfoldable pub parse_offset_type_name : Table → List RawRecord
unfolding flat_map offset_line
parse_offset_type_name table = flat_map offset_line table.raw_lines

-- `_DESCNAME_RE`
unfoldable pub descname_re : Regex
unfolding cat spaces spaces2 hex_number type_re plus plus_lazy non_space dot space
descname_re = cat (
    at_start
    ∷ spaces
    ∷ group (codes "addr") hex_number
    ∷ spaces2
    ∷ group (codes "type") type_re
    ∷ spaces2
    ∷ group (codes "reset") (seq (plus non_space) (lazy (seq space (plus non_space))))
    ∷ spaces2
    ∷ group (codes "desc") (seq non_space (star dot))
    ∷ at_end
    ∷ [])

-- `[A-Z][A-Z0-9_]{2,}`
unfoldable pub long_cap_name : Regex
unfolding cap at_least cap_char
long_cap_name = seq cap (at_least 2 cap_char)

unfoldable pub on_page_re : Regex
unfolding cat lit spaces spaces1 long_cap_name
on_page_re = cat (lit "," ∷ spaces ∷ group (codes "1") long_cap_name ∷ spaces1 ∷ lit "on page" ∷ [])

-- The name that a description spells before "on page", or that it starts with.
unfoldable pub described_name : Text → Option Text
unfolding search on_page_re match long_cap_name text_of_group
described_name desc = elim (search on_page_re desc) [
  | some (before, m) ↦ some (text_of_group m "1")
  | none ↦ elim (match (seq (group (codes "1") long_cap_name) boundary) desc) [
    | none ↦ none
    | some m ↦ some (text_of_group m "1")
  ]
]

unfoldable pub descname_line : ℕ × Text → List RawRecord
unfolding match descname_re text_of_group strip described_name plain_record
descname_line (page, line) = elim (match descname_re line) [
  | none ↦ []
  | some m ↦
      let desc = strip (text_of_group m "desc") in
      elim (described_name desc) [
        | none ↦ []
        | some name ↦
            plain_record name (some (text_of_group m "addr")) (text_of_group m "type")
              (some (text_of_group m "reset")) desc page
            ∷ []
      ]
]

-- `parse_addr_type_reset_descname`
unfoldable pub parse_addr_type_reset_descname : Table → List RawRecord
unfolding flat_map descname_line
parse_addr_type_reset_descname table = flat_map descname_line table.raw_lines
