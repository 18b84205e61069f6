-- ===== src/Examples/Imports.antt =====
-- Imports of the small manual.
use libhw.Base.{All, List, Text, [], codes, count, length, ok, refl, some, text_eq, ◌≡◌, ◌≤◌}
use libhw.Examples.Documents.{
  declaration, document, got, inputs, lock, machine, no_import, nothing, reviewed, rules, source,
  table_ids, tables,
}
use libhw.Importer.Declared.{declared_entry, import_declared, record_under}
use libhw.Importer.Declared.Doubles.{import_declared_doubles}
use libhw.Importer.Records.Unique.{emits}
use libhw.Importer.Rules.{Rules}
use libhw.Importer.Tables.{Import, import_tables, nothing_imported}
use libhw.Importer.Tables.Balance.{IsImportOf, import_tables-IsBalanced}
use libhw.Importer.Tables.Unique.{import_tables_unique}
use libhw.Importer.Target.{ImportReport, import_document, import_entries, import_target}
use libhw.Importer.Target.Entries.{import_target_verified}
use libhw.Importer.Target.Snapshot.{SnapshotRule, import_entries-SnapshotRule}
use libhw.Model.Entry.{StateEntry, has_colon, state_id}
use libhw.Model.Kinds.{classification_of, emitted_state}
use libhw.Sources.{Source}
use libhw.Sources.Lock.{get_source}
use libhw.Sources.Verify.{Matches}

abbrev result : List StateEntry × ImportReport
unfolding import_target got state_id text_eq
result = got nothing (import_target machine (some lock) document reviewed [] [])

imported : import_target machine (some lock) document reviewed [] [] ≡ ok result
unfolding import_target got state_id text_eq
imported = refl

import_target_verified_example :
    (r : Rules) × (s : Source) × (path : Text) × (reviewed.rules ≡ some r)
    × (get_source r.source (some lock) ≡ ok s)
    × Matches machine s path
    × (import_document document reviewed r s [] [] path ≡ ok result)
import_target_verified_example =
    import_target_verified machine (some lock) document reviewed [] [] result imported

abbrev tabled : Import
unfolding import_tables got inputs
tabled = got no_import (import_tables inputs rules.tables tables table_ids nothing_imported)

tabled-eq : import_tables inputs rules.tables tables table_ids nothing_imported ≡ ok tabled
unfolding import_tables got inputs
tabled-eq = refl

import_tables-IsBalanced_example :
    IsImportOf inputs rules.tables tables table_ids tabled.entries tabled.tables
    × (tabled.source_records ≡ length tabled.entries)
import_tables-IsBalanced_example =
    import_tables-IsBalanced inputs rules.tables tables table_ids tabled tabled-eq

import_tables_unique_example : count (emits (codes "ARMv7-M:arch:SCB:CPUID")) tabled.entries ≤ 1
import_tables_unique_example =
    import_tables_unique inputs rules.tables tables table_ids tabled tabled-eq
      (codes "ARMv7-M:arch:SCB:CPUID")

-- The repeated register has one entry of that kind, not none.
tabled-count : count (emits (codes "ARMv7-M:arch:SCB:CPUID")) tabled.entries ≡ 1
unfolding import_tables got inputs emits state_id
tabled-count = refl

import_declared_doubles_example :
    import_declared inputs
      (codes "CPUID", some declaration)
      (record { entries = tabled.entries; seen = tabled.seen })
    ≡ ok (
        record_under
          (codes "CPUID")
          (declared_entry inputs (codes "CPUID") declaration emitted_state)
          (record { entries = tabled.entries; seen = tabled.seen }))
unfolding has_colon classification_of
import_declared_doubles_example =
    import_declared_doubles inputs rules.tables tables table_ids tabled tabled-eq (codes "CPUID")
      (codes "emitted_state") declaration emitted_state refl refl refl refl

import_entries-SnapshotRule_example : All SnapshotRule result.0
import_entries-SnapshotRule_example =
    import_entries-SnapshotRule inputs rules tables table_ids tabled result.0
      (unfold import_entries import_target import_tables got inputs state_id text_eq in refl)
