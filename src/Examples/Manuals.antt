-- ===== src/Examples/Manuals.antt =====
-- Pinned documents, the checks of a report, and identifiers, at concrete data.
use libhw.Base.{All, [], codes, member, none, ok, refl, text_eq, true, ◌↔◌, ◌∷◌, ◌≡◌}
use libhw.Examples.Documents.{inputs, lock, machine, manual_path, row, rule, source, table}
use libhw.Importer.Records.{reserved_entry}
use libhw.Importer.Report.{crosscheck, index_names}
use libhw.Importer.Report.Covered.{IsCovered}
use libhw.Importer.Report.Missing.{crosscheck_lem}
use libhw.Model.Entry.{StateEntry}
use libhw.Model.Identifier.{c_identifier}
use libhw.Model.Identifier.Shape.{IsNameChar, NoRun, StartsNoDigit, c_identifier_shape}
use libhw.Model.Kinds.{emitted_state, memory_mapped}
use libhw.Sources.{resolve, verify}
use libhw.Sources.Lock.{get_source, is_supported}
use libhw.Sources.Lock.Pinned.{Origin, get_source_pinned}
use libhw.Sources.Verify.{Matches, verify-iff-Matches}

verify-iff-Matches_example :
    (verify machine source ≡ ok manual_path)
    ↔ ((resolve machine source ≡ ok manual_path) × Matches machine source manual_path)
verify-iff-Matches_example = verify-iff-Matches machine source manual_path

accepted : verify machine source ≡ ok manual_path
unfolding verify text_eq
accepted = refl

get_source_pinned_example :
    (is_supported lock.schema_version ≡ true) × Origin lock.sources (codes "arm") source
get_source_pinned_example =
    get_source_pinned (codes "arm") lock source (unfold get_source text_eq in refl)

c_identifier_shape_example :
    All IsNameChar (c_identifier (codes "0 FP<n>"))
    × StartsNoDigit (c_identifier (codes "0 FP<n>"))
    × NoRun (c_identifier (codes "0 FP<n>"))
c_identifier_shape_example = c_identifier_shape (codes "0 FP<n>")

identifier : c_identifier (codes "0 FP<n>") ≡ codes "_0_FP_N"
unfolding c_identifier
identifier = refl

abbrev excluded : StateEntry
unfolding reserved_entry
excluded = reserved_entry inputs (codes "B3-4") rule table (row none true) memory_mapped

abbrev listed : StateEntry
unfolding reserved_entry
listed = record excluded { canonical_name = codes "CPUID"; classification = emitted_state }

crosscheck_lem_example :
    let missing = (crosscheck (listed ∷ []) table).missing in
    let names = index_names table.raw_lines [] in
    ((member (codes "CPUID") missing ≡ true)
      ↔ ((member (codes "CPUID") names ≡ true) × (¬ IsCovered (listed ∷ []) (codes "CPUID"))))
    × ((missing ≡ []) ↔ All (IsCovered (listed ∷ [])) names)
crosscheck_lem_example = crosscheck_lem (listed ∷ []) table (codes "CPUID")

covered : (crosscheck (listed ∷ []) table).missing ≡ []
unfolding crosscheck text_eq reserved_entry
covered = refl

-- The index names a register that an import of nothing lacks.
missed : (crosscheck [] table).missing ≡ codes "CPUID" ∷ []
unfolding crosscheck text_eq
missed = refl
