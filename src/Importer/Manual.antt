-- ===== src/Importer/Manual.antt =====
-- The document that `import_target` of tools/state/importer.py reads, as tools/state/armpdf.py and
-- tools/state/profiles.py make it of the pages of a manual: what fills the importer's interface.
pub mod Recorded
use libhw.Base.{Dict, List, Result, Text, [], codes, err, map, ok, some, ◌∷◌}
use libhw.Importer.Rules.{RawRecord}
use libhw.Importer.Target.{Document, Extract}
use libhw.Pdf.Extract.{TableDecision, extract_tables}
use libhw.Pdf.Table.{Table}
use libhw.Profiles.Indexed.{parse_core_register_index, parse_special_register_sysm}
use libhw.Profiles.Named.{
  parse_addr_register_value, parse_addr_type_reset_descname, parse_fp_common_block,
  parse_offset_type_name, parse_offset_value_name,
}
use libhw.Profiles.Summary.{parse_addr_name_type_reset, unparsed_rows}

abbrev pub Parser : Type 0
Parser = Table → List RawRecord

-- `PROFILES`
unfoldable pub row_parsers : Dict Parser
unfolding parse_addr_name_type_reset parse_addr_register_value parse_core_register_index
    parse_special_register_sysm parse_fp_common_block parse_offset_type_name parse_offset_value_name
    parse_addr_type_reset_descname
row_parsers =
    (codes "addr_name_type_reset", λ t. (parse_addr_name_type_reset t).0)
    ∷ (codes "addr_register_value", parse_addr_register_value)
    ∷ (codes "core_register_index", parse_core_register_index)
    ∷ (codes "special_register_sysm", parse_special_register_sysm)
    ∷ (codes "fp_common_block", parse_fp_common_block)
    ∷ (codes "offset_type_name", parse_offset_type_name)
    ∷ (codes "offset_value_name", parse_offset_value_name)
    ∷ (codes "addr_type_reset_descname", parse_addr_type_reset_descname)
    ∷ []

-- An extraction for given ids always returns.
unfoldable pub extract_result : Result (List Table × List TableDecision) → Extract
extract_result (err e) = record { tables = []; found = [] }
extract_result (ok (tables, decisions)) = record {
  tables = tables;
  found = map (λ (d : TableDecision). d.table_id) decisions;
}

-- A manual is what the text extractor prints of the file at a path, page by page.
unfoldable pub manual : (Text → List Text) → Document
unfolding extract_result extract_tables row_parsers unparsed_rows parse_addr_name_type_reset
manual pdf_pages = record {
  extract_tables = λ path ids. extract_result (extract_tables (pdf_pages path) (some ids));
  profiles = row_parsers;
  unparsed_rows = λ t. unparsed_rows (parse_addr_name_type_reset t).1;
}
