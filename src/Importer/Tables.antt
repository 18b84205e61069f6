-- ===== src/Importer/Tables.antt =====
-- The loop of `import_target` in tools/state/importer.py over the kept tables.
pub mod Balance
pub mod Rows
pub mod Unique
pub mod Keys
use libhw.Base.{
  Dict, List, Result, Text, [], codes, err, fold_result, if◌then◌else◌, key_error, length, lookup,
  ok, require, source_error, text_eq, ℕ, ◌++◌, ◌+◌, ◌>>=◌, ◌>>◌, ◌∷◌,
}
use libhw.Pdf.Table.{Table, label}
use libhw.Model.Entry.{StateEntry}
use libhw.Importer.Rules.{Inputs, Rule}
use libhw.Importer.Records.{Progress, Stats, import_record}

-- One item of `report.tables`.
pub record TableReport : Type 0 where
  pub table : Text
  pub id : Text
  pub profile : Text
  pub stats : Stats

pub record Import : Type 0 where
  pub entries : List StateEntry
  pub seen : Dict StateEntry
  pub tables : List TableReport
  pub source_records : ℕ

abbrev pub nothing_imported : Import
nothing_imported = record { entries = []; seen = []; tables = []; source_records = 0 }

-- `stats` before the first record.
unfoldable pub fresh_stats : ℕ → Stats
fresh_stats n = record {
  rows = n;
  emitted = 0;
  conditional = 0;
  alias_rows = 0;
  architecture_rows = 0;
  excluded = 0;
  operation = 0;
}

-- A silently dropped row ends the import.
unfoldable pub check_leftover : Inputs → Rule → Table → Result (Unit {0})
unfolding text_eq
check_leftover inp rule table =
    if text_eq rule.profile (codes "addr_name_type_reset")
    then elim (inp.unparsed_rows table) [ [] ↦ ok tt | r ∷ rs ↦ err source_error ]
    else ok tt

unfoldable pub close_table : Text → Rule → Table → List TableReport → ℕ → Progress → Import
unfolding label
close_table tid rule table tables source_records p = record {
  entries = p.entries;
  seen = p.seen;
  tables =
      tables
      ++ (record { table = label table; id = tid; profile = rule.profile; stats = p.stats } ∷ []);
  source_records = source_records + p.stats.rows;
}

unfoldable pub import_table : Inputs → Text → Rule → Table → Import → Result Import
unfolding fresh_stats check_leftover close_table import_record fold_result lookup
import_table inp tid rule table s = do
  parse ← require (lookup rule.profile inp.profiles) key_error
  let records = parse table
  check_leftover inp rule table
  p ←
      fold_result (import_record inp tid rule table) records
        (record { entries = s.entries; seen = s.seen; stats = fresh_stats (length records) })
  ok (close_table tid rule table s.tables s.source_records p)

-- The body of the loop: `rule = table_rules[tid]`, and the table that the document must hold.
unfoldable pub visit_table : Inputs → Dict Rule → Dict Table → Text → Import → Result Import
unfolding import_table lookup
visit_table inp table_rules by_id tid s = do
  rule ← require (lookup tid table_rules) key_error
  table ← require (lookup tid by_id) source_error
  import_table inp tid rule table s

unfoldable pub import_tables : Inputs → Dict Rule → Dict Table → List Text → Import → Result Import
unfolding visit_table fold_result
import_tables inp table_rules by_id ids s = fold_result (visit_table inp table_rules by_id) ids s
