-- ===== src/Importer/Target.antt =====
-- `import_target` of tools/state/importer.py.
pub mod Entries
pub mod Every
pub mod Snapshot
use libhw.Base.{
  Bool, Dict, List, Option, Result, Text, [], fold_result, has_key, if◌then◌else◌, insert, keep,
  lookup, none, not, ok, raise_if, require, some, source_error, text_lt, ℕ, ◌++◌, ◌>>=◌, ◌>>◌, ◌∷◌,
}
use libhw.Model.Entry.{StateEntry}
use libhw.Sources.{Machine, Source, verify}
use libhw.Sources.Lock.{Lock, get_source, is_empty}
use libhw.Pdf.Table.{Table}
use libhw.Importer.Rules.{AccessPath, Inputs, Override, RawRecord, RegisterFile, Rule, Rules}
use libhw.Importer.Tables.{Import, TableReport, import_tables, nothing_imported}
use libhw.Importer.Declared.{import_declared, import_file}
use libhw.Importer.Report.{Counts, Crosscheck, check_total, crosscheck, without_reason}

-- The rules files of one target, as the loaders `_load_rules`, `_load_classify_rules`,
-- `_load_access_rules` and `_load_register_files` return them; `rules` is `none` without a file.
pub record Reviewed : Type 0 where
  pub rules : Option Rules
  pub overrides : Dict (Option Override)
  pub access_paths : Dict AccessPath
  pub register_files : Dict RegisterFile

-- What `extract_tables` returns: the tables, and the ids of every caption that it saw.
pub record Extract : Type 0 where
  pub tables : List Table
  pub found : List Text

-- The code that `import_target` calls on the document.
pub record Document : Type 0 where
  pub extract_tables : Text → List Text → Extract
  pub profiles : Dict (Table → List RawRecord)
  pub unparsed_rows : Table → List (ℕ × Text)

pub record ImportReport : Type 0 where
  pub architecture : Text
  pub document : Text
  pub revision : Text
  pub source_records : ℕ
  pub counts : Counts
  pub tables : List TableReport
  pub crosschecks : Dict Crosscheck
  pub unclassified : List Text

-- `sorted(xs)`, by insertion.
unfoldable pub insert_sorted : Text → List Text → List Text
unfolding text_lt
insert_sorted x [] = x ∷ []
insert_sorted x (y ∷ ys) = if text_lt y x then y ∷ insert_sorted x ys else x ∷ y ∷ ys

unfoldable pub sorted : List Text → List Text
unfolding insert_sorted
sorted [] = []
sorted (x ∷ xs) = insert_sorted x (sorted xs)

-- `{tid for tid, r in table_rules.items() if r.get("keep")}`
unfoldable pub kept_ids : Dict Rule → List Text
kept_ids [] = []
kept_ids ((tid, r) ∷ d) = if r.keep then tid ∷ kept_ids d else kept_ids d

-- `{t.table_id: t for t in tables}`
unfoldable pub by_id : List Table → Dict Table → Dict Table
unfolding insert
by_id [] d = d
by_id (t ∷ ts) d = by_id ts (insert t.table_id t d)

unfoldable pub is_undecided : Dict Rule → Text → Bool
unfolding has_key
is_undecided rules tid = not (has_key tid rules)

unfoldable pub crosschecks : List StateEntry → Dict Table → List Text → Dict Crosscheck
unfolding crosscheck lookup
crosschecks entries tables [] = []
crosschecks entries tables (tid ∷ ids) = elim (lookup tid tables) [
  | none ↦ crosschecks entries tables ids
  | some t ↦ (tid, crosscheck entries t) ∷ crosschecks entries tables ids
]

unfoldable pub inputs_of : Reviewed → Rules → Source → Document → List Text → Dict Text → Inputs
inputs_of r rules src doc names addrs = record {
  architecture = rules.architecture;
  document = src.document;
  revision = src.revision;
  overrides = r.overrides;
  access_paths = r.access_paths;
  register_files = r.register_files;
  arch_names = names;
  arch_addrs = addrs;
  profiles = doc.profiles;
  unparsed_rows = doc.unparsed_rows;
}

-- From the tables on: every state entry, and what the table loop has reported.
unfoldable pub import_entries :
    Inputs → Rules → Dict Table → List Text → Result (Import × List StateEntry)
unfolding import_tables import_declared import_file fold_result
import_entries inp rules tables ids = do
  i ← import_tables inp rules.tables tables ids nothing_imported
  b ←
      fold_result (import_declared inp) inp.overrides
        (record { entries = i.entries; seen = i.seen })
  c ← fold_result (import_file inp) inp.register_files b
  ok (i, c.entries)

-- `extract_tables(path, keep_ids=keep | crosscheck_ids)`
unfoldable pub extract_of : Document → Rules → Text → Extract
unfolding kept_ids
extract_of doc rules path =
    doc.extract_tables path (kept_ids rules.tables ++ rules.crosscheck_indexes)

-- Some caption of the document has no reviewed decision.
unfoldable pub has_undecided : Document → Rules → Text → Bool
unfolding extract_of is_undecided is_empty
has_undecided doc rules path =
    not (is_empty (keep (is_undecided rules.tables) (extract_of doc rules path).found))

unfoldable pub tables_of : Document → Rules → Text → Dict Table
unfolding extract_of by_id
tables_of doc rules path = by_id (extract_of doc rules path).tables []

-- The import from the verified document at `path` on.
unfoldable pub import_document :
    Document
    → Reviewed
    → Rules
    → Source
    → List Text
    → Dict Text
    → Text
    → Result (List StateEntry × ImportReport)
unfolding has_undecided kept_ids sorted tables_of inputs_of import_entries check_total crosschecks
    without_reason
import_document doc r rules src names addrs path = do
  raise_if (has_undecided doc rules path) source_error
  (i, entries) ←
      import_entries (inputs_of r rules src doc names addrs) rules (tables_of doc rules path)
        (sorted (kept_ids rules.tables))
  counts ← check_total entries
  ok (
    entries,
    record {
      architecture = rules.architecture;
      document = src.document;
      revision = src.revision;
      source_records = i.source_records;
      counts = counts;
      tables = i.tables;
      crosschecks =
          crosschecks entries (tables_of doc rules path) (sorted rules.crosscheck_indexes);
      unclassified = without_reason entries;
    },
  )

-- `names` and `addrs` are the architecture's, empty when no architecture manifest is given.
unfoldable pub import_target :
    Machine
    → Option Lock
    → Document
    → Reviewed
    → List Text
    → Dict Text
    → Result (List StateEntry × ImportReport)
unfolding get_source verify import_document
import_target m lock doc r names addrs = do
  rules ← require r.rules source_error
  src ← get_source rules.source lock
  path ← verify m src
  import_document doc r rules src names addrs path
