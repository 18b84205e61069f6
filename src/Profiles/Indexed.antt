-- ===== src/Profiles/Indexed.antt =====
-- `parse_core_register_index` and `parse_special_register_sysm` of tools/state/profiles.py.
pub mod Once
use libhw.Base.{
  List, Text, [], codes, false, if◌then◌else◌, member, none, not, or_else, some, starts_with, strip,
  suc, text_eq, upper, zero, ℕ, ◌++◌, ◌==◌, ◌||◌, ◌∷◌,
}
use libhw.Base.Regex.{
  Regex, at_end, at_start, char, fullmatches, group, group_of, match, search, star, text_of_group,
}
use libhw.Base.Regex.Patterns.{any_of, cat, digits, dot, identifier, lit, opt, plus, spaces}
use libhw.Base.Regex.Texts.{cons_first}
use libhw.Importer.Rules.{RawRecord}
use libhw.Pdf.Lines.{split_cells}
use libhw.Pdf.Range.{number}
use libhw.Pdf.Table.{Table}
use libhw.Profiles.Named.{flat_map}

-- A row of the index: its names, what it refers to, and its page.
pub record IndexRow : Type 0 where
  pub names : Text
  pub see : Text
  pub page : ℕ

-- The last of the cells.
unfoldable pub last_cell : Text → List Text → Text
last_cell first [] = first
last_cell first (c ∷ cells) = last_cell c cells

-- `rows[-1] = (f"{names} {cell}", see, pg)`, if there is a row
unfoldable pub continue_row : Text → List IndexRow → List IndexRow
continue_row cell [] = []
continue_row cell (r ∷ []) = record r { names = r.names ++ (b' ' ∷ cell) } ∷ []
continue_row cell (r ∷ s ∷ rows) = r ∷ continue_row cell (s ∷ rows)

unfoldable pub index_line : ℕ → List Text → List IndexRow → List IndexRow
unfolding text_eq last_cell continue_row
index_line page [] rows = rows
index_line page (cell ∷ cells) rows =
    if text_eq cell (codes "Register") || text_eq cell (codes "See") then rows else elim cells [
      | [] ↦ continue_row cell rows
      | c ∷ cs ↦ rows ++ (record { names = cell; see = last_cell c cs; page = page } ∷ [])
    ]

unfoldable pub index_rows : List (ℕ × Text) → List IndexRow → List IndexRow
unfolding index_line split_cells
index_rows [] rows = rows
index_rows ((page, line) ∷ lines) rows = index_rows lines (index_line page (split_cells line) rows)

-- `re.split(r",\s*", names)`, each part stripped on both sides
unfoldable pub split_commas : Text → List Text
unfolding cons_first
split_commas [] = [] ∷ []
split_commas (c ∷ s) =
    let rest = split_commas s in if c == b',' then [] ∷ rest else cons_first c rest

-- `^([A-Za-z_][A-Za-z0-9_]*)(?:\s*\(([^)]+)\))?$`
unfoldable pub token_re : Regex
unfolding cat identifier opt spaces lit plus
token_re = cat (
    at_start
    ∷ group (codes "1") identifier
    ∷ opt (
        cat (
          spaces ∷ lit "(" ∷ group (codes "2") (plus (char (λ c. not (c == b')')))) ∷ lit ")" ∷ []))
    ∷ at_end
    ∷ [])

unfoldable pub token_record : IndexRow → Text → List RawRecord
unfolding strip match token_re text_of_group group_of
token_record row tok = elim (match token_re (strip tok)) [
  | none ↦ []
  | some m ↦
      record {
        name = some (text_of_group m "1");
        address = none;
        access = codes "RW";
        reset = none;
        description = row.see;
        reserved = false;
        page = some row.page;
        sysm = none;
        alt_name = group_of m "2";
      }
      ∷ []
]

unfoldable pub row_records : IndexRow → List RawRecord
unfolding flat_map token_record split_commas
row_records row = flat_map (token_record row) (split_commas row.names)

-- `parse_core_register_index`
unfoldable pub parse_core_register_index : Table → List RawRecord
unfolding flat_map row_records index_rows
parse_core_register_index table = flat_map row_records (index_rows table.raw_lines [])

-- `_SYSM_RE`
unfoldable pub sysm_re : Regex
unfolding cat digits spaces lit plus
sysm_re = cat (
    group (codes "1") digits
    ∷ spaces
    ∷ lit "="
    ∷ spaces
    ∷ lit "0b"
    ∷ plus bit
    ∷ lit ":"
    ∷ plus bit
    ∷ [])
  where
    bit : Regex
    bit = char (λ c. c == b'0' || c == b'1')

-- `,\s*on (reads|writes).*$`
unfoldable pub on_reads_re : Regex
unfolding cat lit spaces any_of dot
on_reads_re = cat (
    lit ","
    ∷ spaces
    ∷ lit "on "
    ∷ any_of (lit "reads" ∷ lit "writes" ∷ [])
    ∷ star dot
    ∷ at_end
    ∷ [])

-- `s.replace("_<bits>", "")`
unfoldable pub drop_bits : ℕ → Text → Text
unfolding starts_with
drop_bits skip [] = []
drop_bits (suc skip) (c ∷ s) = drop_bits skip s
drop_bits zero (c ∷ s) =
    let cut = drop_bits 6 s in
    let kept = drop_bits 0 s in if starts_with (c ∷ s) (codes "_<bits>") then cut else c ∷ kept

-- The name in the first cell, without the marks of the read and of the write spelling.
unfoldable pub base_name : Text → Text
unfolding search on_reads_re strip drop_bits
base_name spec =
    let named = strip (elim (search on_reads_re spec) [ none ↦ spec | some (kept, m) ↦ kept ]) in
    strip (drop_bits 0 named)

unfoldable pub sysm_record : ℕ → List Text → Text → List RawRecord
unfolding base_name fullmatches identifier upper number
sysm_record page [] value = []
sysm_record page (cell ∷ cells) value =
    let spec = base_name cell in
    if fullmatches identifier spec
    then record {
      name = some (upper spec);
      address = none;
      access = codes "RW";
      reset = none;
      description = elim cells [ [] ↦ [] | c ∷ cs ↦ c ];
      reserved = false;
      page = some page;
      sysm = some (number value);
      alt_name = none;
    }
      ∷ []
    else []

unfoldable pub sysm_line : ℕ × Text → List RawRecord
unfolding search sysm_re text_of_group sysm_record split_cells
sysm_line (page, line) = elim (search sysm_re line) [
  | none ↦ []
  | some (before, m) ↦ sysm_record page (split_cells before) (text_of_group m "1")
]

unfoldable pub name_of : RawRecord → Text
unfolding or_else
name_of r = or_else r.name []

-- The records whose names are not among those seen: the first occurrence of each is kept.
unfoldable pub first_of_each : List Text → List RawRecord → List RawRecord
unfolding member name_of
first_of_each seen [] = []
first_of_each seen (r ∷ rs) =
    let repeat = first_of_each seen rs in
    let rest = first_of_each (name_of r ∷ seen) rs in
    if member (name_of r) seen then repeat else r ∷ rest

-- `parse_special_register_sysm`
unfoldable pub parse_special_register_sysm : Table → List RawRecord
unfolding flat_map sysm_line first_of_each
parse_special_register_sysm table = first_of_each [] (flat_map sysm_line table.raw_lines)
