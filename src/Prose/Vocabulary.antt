-- ===== src/Prose/Vocabulary.antt =====
-- tools/state/prose.py: the vocabularies that a manual states itself. A set is a list in which no text is
-- twice.
use libhw.Base.{
  Bool, List, Text, [], codes, false, if◌then◌else◌, is_lower, is_upper, keep, leb, map, none, not,
  some, starts_with, strip, true, ℕ, ◌&&◌, ◌+◌, ◌-◌, ◌==◌, ◌||◌, ◌∷◌,
}
use libhw.Base.Regex.{
  Regex, alt, at_end, at_start, char, found_in, fullmatches, group, is_word_char, line_start, match,
  matches, seq, star, text_of_group,
}
use libhw.Base.Regex.Iterate.{split_at}
use libhw.Base.Regex.Patterns.{
  between, cap, cat, digits, lit, lit_i, name_char, non_space, opt, space, spaces, spaces1, up_to,
  up_to_lazy,
}
use libhw.Base.Regex.Texts.{split_columns}
use libhw.Importer.Report.{set_add}
use libhw.Pdf.Extract.{splitlines}
use libhw.Prose.Patterns.{comma, is_cap_digit, section_number}
use libhw.Sources.Lock.{is_empty}

-- `_MNEMONIC_HEAD_RE`
unfoldable pub mnemonic_name : Regex
unfolding cap is_cap_digit
mnemonic_name = seq cap (star (char is_cap_digit))

unfoldable pub mnemonic_head_re : Regex
unfolding section_number mnemonic_name comma spaces spaces1 lit between cat digits
mnemonic_head_re = cat (
    at_start
    ∷ group (codes "sec") (
        cat (
          lit "A" ∷ char (λ c. leb b'4' c && leb c b'7') ∷ between 1 3 (seq (lit ".") digits) ∷ []))
    ∷ spaces1
    ∷ group (codes "title") (seq mnemonic_name (star (seq comma mnemonic_name)))
    ∷ alt (seq spaces (lit "(")) (seq spaces at_end)
    ∷ [])

-- `[A-Z][A-Z0-9]{1,9}`
unfoldable pub mnemonic_re : Regex
unfolding cap is_cap_digit between
mnemonic_re = seq cap (between 1 9 (char is_cap_digit))

unfoldable pub add_mnemonics : List Text → List Text → List Text
unfolding strip fullmatches mnemonic_re set_add
add_mnemonics [] out = out
add_mnemonics (tok ∷ toks) out =
    add_mnemonics toks
      (if fullmatches mnemonic_re (strip tok) then set_add (strip tok) out else out)

unfoldable pub mnemonics_of_lines : List Text → List Text → List Text
unfolding match mnemonic_head_re strip add_mnemonics split_at comma text_of_group
mnemonics_of_lines [] out = out
mnemonics_of_lines (line ∷ lines) out =
    mnemonics_of_lines lines (elim (match mnemonic_head_re (strip line)) [
      | none ↦ out
      | some m ↦ add_mnemonics (split_at comma (text_of_group m "title")) out
    ])

unfoldable pub mnemonics_of_pages : List Text → List Text → List Text
unfolding mnemonics_of_lines splitlines
mnemonics_of_pages [] out = out
mnemonics_of_pages (page ∷ pages) out =
    mnemonics_of_pages pages (mnemonics_of_lines (splitlines page) out)

-- `instruction_mnemonics(path)`, of the document's pages
unfoldable pub instruction_mnemonics : List Text → List Text
unfolding mnemonics_of_pages
instruction_mnemonics pages = mnemonics_of_pages pages []

-- `[A-Za-z]` and `[A-Za-z0-9_/ ]`
unfoldable pub is_letter : ℕ → Bool
unfolding is_upper is_lower
is_letter c = is_upper c || is_lower c

-- `_FIELD_TABLE_RE`
unfoldable pub field_table_re : Regex
unfolding spaces spaces1 digits lit_i opt is_letter is_word_char up_to_lazy cat
field_table_re = cat (
    at_start
    ∷ spaces
    ∷ lit_i "Table"
    ∷ spaces1
    ∷ opt (char is_letter)
    ∷ digits
    ∷ lit_i "-"
    ∷ digits
    ∷ spaces1
    ∷ group (codes "who") (
        seq (char is_letter) (up_to_lazy 40 (char (λ c. is_word_char c || c == b'/' || c == b' '))))
    ∷ spaces1
    ∷ lit_i "bit"
    ∷ spaces1
    ∷ alt (lit_i "assignments") (lit_i "definitions")
    ∷ [])

-- `[A-Z][A-Za-z0-9_]{0,15}`
unfoldable pub field_re : Regex
unfolding cap name_char up_to
field_re = seq cap (up_to 15 name_char)

-- `_FIELD_ROW_RE`
unfoldable pub field_row_re : Regex
unfolding field_re spaces space lit opt cat
field_row_re = cat (
    at_start
    ∷ spaces
    ∷ group (codes "name") field_re
    ∷ spaces
    ∷ alt (lit ",") space
    ∷ spaces
    ∷ lit "bit"
    ∷ opt (lit "s")
    ∷ spaces
    ∷ lit "["
    ∷ [])

-- What `field_names` keeps between lines.
pub record Fields : Type 0 where
  pub out : List Text
  pub in_field_table : Bool

-- The first cell of a row, if it can be the name of a field.
unfoldable pub add_first_cell : List Text → List Text → List Text
unfolding fullmatches field_re set_add
add_first_cell [] out = out
add_first_cell (c ∷ cells) out = if fullmatches field_re c then set_add c out else out

unfoldable pub cells_of : Text → List Text
unfolding split_columns strip is_empty
cells_of line = keep (λ c. not (is_empty c)) (map strip (split_columns 0 (strip line)))

unfoldable pub field_line : Text → Fields → Fields
unfolding matches field_table_re starts_with strip match field_row_re text_of_group set_add
    add_first_cell cells_of
field_line line s =
    let inside = if starts_with (strip line) (codes "Table ") then false else s.in_field_table in
    if matches field_table_re line then record { out = s.out; in_field_table = true } else record {
      out = elim (match field_row_re line) [
        | some m ↦ set_add (text_of_group m "name") s.out
        | none ↦ if inside then add_first_cell (cells_of line) s.out else s.out
      ];
      in_field_table = inside;
    }

unfoldable pub field_lines : List Text → Fields → Fields
unfolding field_line
field_lines [] s = s
field_lines (line ∷ lines) s = field_lines lines (field_line line s)

unfoldable pub field_pages : List Text → Fields → Fields
unfolding field_lines splitlines
field_pages [] s = s
field_pages (page ∷ pages) s = field_pages pages (field_lines (splitlines page) s)

-- `field_names(path)`, of the document's pages
unfoldable pub field_names : List Text → List Text
unfolding field_pages
field_names pages = (field_pages pages (record { out = []; in_field_table = false })).out

-- A page on which the first chapter begins: `^\s*(?:Chapter\s+)?A1(?:\.1)?\s+\S` under `re.M`.
unfoldable pub first_chapter_re : Regex
unfolding spaces spaces1 non_space lit opt cat
first_chapter_re = cat (
    line_start
    ∷ spaces
    ∷ opt (seq (lit "Chapter") spaces1)
    ∷ lit "A1"
    ∷ opt (lit ".1")
    ∷ spaces1
    ∷ non_space
    ∷ [])

unfoldable pub front_matter_from : ℕ → List Text → ℕ
unfolding found_in first_chapter_re
front_matter_from page_no [] = 0
front_matter_from page_no (page ∷ pages) =
    let later = front_matter_from (page_no + 1) pages in
    if found_in first_chapter_re page then page_no - 1 else later

-- `front_matter_pages(path)`, of the document's pages
unfoldable pub front_matter_pages : List Text → ℕ
unfolding front_matter_from
front_matter_pages pages = front_matter_from 1 pages
