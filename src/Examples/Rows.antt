-- ===== src/Examples/Rows.antt =====
-- Lines of a summary, parsed.
use libhw.Base.{
  All, List, Option, Text, [], any, arith, codes, false, length, map, none, ok, refl, rstrip_by,
  some, strip, text_eq, true, truthy, ℕ, ◌+◌, ◌∷◌, ◌≡◌,
}
use libhw.Base.Numeral.{decimal}
use libhw.Examples.Documents.{got, manual_path, nothing, reviewed, rules, source, table}
use libhw.Importer.Manual.{manual}
use libhw.Importer.Manual.Recorded.{IsRecorded, import_document-IsRecorded}
use libhw.Importer.Rules.{RawRecord}
use libhw.Importer.Target.{ImportReport, import_document, kept_ids, sorted, tables_of}
use libhw.Manifest.Generate.Print.{join_lines}
use libhw.Model.Entry.{StateEntry, state_id}
use libhw.Pdf.Extract.{TableDecision, Walk, extract_tables, walk_page}
use libhw.Pdf.Extract.Fuel.{walk_page-length}
use libhw.Pdf.Extract.Kept.{extract_tables_kept, keeps_table}
use libhw.Pdf.Range.{addresses, expand_range, name_range}
use libhw.Pdf.Range.Elements.{IsElement, expand_range_lem}
use libhw.Pdf.Table.{Table}
use libhw.Profiles.Indexed.{parse_special_register_sysm}
use libhw.Profiles.Row.{LineResult, parse_line}
use libhw.Profiles.Summary.{is_leftover, parse_addr_name_type_reset, parse_lines, unparsed_rows}
use libhw.Profiles.Summary.Complete.{AllRecorded, unparsed_rows_complete}

abbrev range_line : Text
range_line =
    codes
      "0xE000E100 - 0xE000E108   NVIC_ISER0 - NVIC_ISER2   RW   0x00000000   Enable Registers on page 3"

abbrev plain_line : Text
plain_line = codes "0xE000ED00    CPUID    RO    0x410FC240a    CPUID Base Register"

abbrev reserved_line : Text
reserved_line = codes "0xE000ED90    -    -    -    Reserved"

abbrev odd_line : Text
odd_line = codes "0xE000ED94 ??    MPU"

abbrev dotted_line : Text
dotted_line = codes "0xE000ED94    …    …    not for this profile"

abbrev lines : List (ℕ × Text)
lines = (4, range_line) ∷ (4, plain_line) ∷ (5, reserved_line) ∷ []

names_of : List RawRecord → List (Option Text × Option Text)
names_of rs = map (λ (r : RawRecord). (r.name, r.address)) rs

abbrev parsed : LineResult
unfolding parse_lines rstrip_by
parsed = parse_lines 0 lines (record { absorbed = []; records = []; rejected = [] })

parsed-names :
    names_of parsed.records
    ≡ (some (codes "NVIC_ISER0"), some (codes "0xE000E100"))
      ∷ (some (codes "NVIC_ISER1"), some (codes "0xE000E104"))
      ∷ (some (codes "NVIC_ISER2"), some (codes "0xE000E108"))
      ∷ (some (codes "CPUID"), some (codes "0xE000ED00"))
      ∷ (none, some (codes "0xE000ED90"))
      ∷ []
unfolding parse_lines names_of
parsed-names = refl

leftovers :
    map is_leftover (plain_line ∷ reserved_line ∷ odd_line ∷ dotted_line ∷ [])
    ≡ false ∷ false ∷ true ∷ false ∷ []
unfolding is_leftover
leftovers = refl

-- A dotted line gives no record, and none of the checks names it.
dropped : (parse_line 0 5 dotted_line []).records ≡ []
unfolding parse_line
dropped = refl

abbrev summary : Table
summary = record table { raw_lines = lines }

unparsed_rows_complete_example :
    let (records, marked) = parse_addr_name_type_reset summary in
    AllRecorded 0 marked.consumed_lines records summary.raw_lines
unparsed_rows_complete_example =
    unparsed_rows_complete summary
      (unfold unparsed_rows parse_addr_name_type_reset rstrip_by in refl)

abbrev address_cell : Text
address_cell = codes "0xE000E100 - 0xE000E11C"

abbrev name_cell : Text
name_cell = codes "NVIC_ISER0 - NVIC_ISER7"

expand_range_lem_example :
    (length (expand_range address_cell name_cell) ≡ 8)
    × IsElement (expand_range address_cell name_cell) 7 (codes "NVIC_ISER7") 0xE000E11C
unfolding decimal
expand_range_lem_example =
    expand_range_lem address_cell name_cell 0xE000E100 0xE000E11C (codes "NVIC_ISER") 0 7 4 7
      (unfold addresses strip rstrip_by text_eq in refl)
      (unfold name_range strip rstrip_by text_eq in refl) (omega arith) (omega arith) (omega arith)

abbrev sysm_table : Table
sysm_table = record table {
  raw_lines =
      (7, codes "APSR, on reads    The flags    0 = 0b00000:000")
      ∷ (7, codes "APSR_<bits>, on writes    The flags    0 = 0b00000:000")
      ∷ (7, codes "PRIMASK    Masks    16 = 0b00010:000")
      ∷ [];
}

sysms : List RawRecord → List (Option Text × Option ℕ)
sysms rs = map (λ (r : RawRecord). (r.name, r.sysm)) rs

special_names :
    sysms (parse_special_register_sysm sysm_table)
    ≡ (some (codes "APSR"), some 0) ∷ (some (codes "PRIMASK"), some 16) ∷ []
unfolding sysms parse_special_register_sysm rstrip_by text_eq
special_names = refl

-- A page with a contents entry, a caption, its header, a row, a range over two lines, and a footnote.
abbrev page_lines : List Text
page_lines =
    codes "Table B3-4 Summary of SCB registers ........ 44"
    ∷ codes "B3.2    System Control Space"
    ∷ codes "Table B3-4 Summary of SCB registers"
    ∷ codes "Address         Name       Type   Reset        Description"
    ∷ codes "0xE000ED00      CPUID      RO     0x410FC240   CPUID Base Register"
    ∷ codes "0xE000E100 -    NVIC_ISER0-   RW     0x00000000   Enable Registers"
    ∷ codes "0xE000E104      NVIC_ISER1"
    ∷ codes "a. A note."
    ∷ codes "0xE000ED04      ICSR       RW     0x00000000   behind the table"
    ∷ []

abbrev pages : Text → List Text
unfolding join_lines
pages path = join_lines page_lines ∷ []

abbrev extracted : List Table × List TableDecision
unfolding extract_tables got join_lines
extracted = got ([], []) (extract_tables (pages []) (some (codes "B3-4" ∷ [])))

extracted-lines : map (λ (t : Table). length t.raw_lines) extracted.0 ≡ 3 ∷ []
unfolding extract_tables got join_lines
extracted-lines = refl

extract_tables_kept_example :
    (ts : List Table) × (ds : List TableDecision) × (extract_tables
        (pages [])
        (some (codes "B3-4" ∷ []))
      ≡ ok (ts, ds))
    × All (λ t. any (keeps_table t) ds ≡ true) ts
extract_tables_kept_example = extract_tables_kept (pages []) (codes "B3-4" ∷ [])

abbrev start : Walk
start = record { tables = []; decisions = []; section = [] }

walk_page-length_example :
    walk_page none 1 (length page_lines + 5) page_lines start
    ≡ walk_page none 1 (length page_lines) page_lines start
walk_page-length_example = walk_page-length none 1 5 page_lines start

abbrev imported : List StateEntry × ImportReport
unfolding import_document got state_id text_eq manual join_lines rstrip_by truthy
imported = got nothing (import_document (manual pages) reviewed rules source [] [] manual_path)

imported-names :
    map (λ (e : StateEntry). e.canonical_name) imported.0
    ≡ codes "CPUID" ∷ codes "NVIC_ISER0" ∷ codes "NVIC_ISER1" ∷ codes "S0" ∷ codes "S1" ∷ []
unfolding import_document got state_id text_eq manual join_lines rstrip_by truthy
imported-names = refl

import_document-IsRecorded_example :
    All
      (IsRecorded rules.tables (tables_of (manual pages) rules manual_path))
      (sorted (kept_ids rules.tables))
import_document-IsRecorded_example =
    import_document-IsRecorded pages reviewed rules source [] [] manual_path imported
      (unfold import_document got state_id text_eq manual join_lines rstrip_by truthy in refl)
