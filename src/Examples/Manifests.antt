-- ===== src/Examples/Manifests.antt =====
-- A small manifest: its report, its generated lines and an address.
use libhw.Base.{
  All, Option, Text, [], codes, count, false, if◌then◌else◌, length, lookup, map, none, refl, some,
  text_eq, true, truthy, ℕ, ◌+◌, ◌↔◌, ◌∷◌, ◌≡◌, ◌⊎◌,
}
use libhw.Importer.Report.{no_counts}
use libhw.Importer.Target.{ImportReport}
use libhw.Manifest.Architecture.{first_at}
use libhw.Manifest.Cmsis.{AddressMap, CmsisReg, diff_against}
use libhw.Manifest.Coverage.{Manifest, coverage, generate_status, reported}
use libhw.Manifest.Coverage.Accounted.{IsAccounted, generate_status_lem}
use libhw.Manifest.Diff.{diff_status, index}
use libhw.Manifest.Diff.Unchanged.{SameAt, diff_status_lem}
use libhw.Manifest.Generate.{Macro, dbgreg_lines, hw_component, state_lines}
use libhw.Manifest.Generate.Lines.{
  HasDescriptor, count-descriptors, dbgreg_lines-HasDescriptor, is_state_line,
}
use libhw.Manifest.Generate.Print.{render}
use libhw.Manifest.Oracle.{Tally, check_entries, oracle_status}
use libhw.Manifest.Oracle.Agreed.{IsConfirmed, check_entries_lem}
use libhw.Manifest.Written.{coverage-write_manifest, write_manifest}
use libhw.Model.Entry.{ManifestEntry, Provenance, StateEntry, state_id, to_dict}
use libhw.Model.Kinds.{
  Namespace, classification_value, emitted_state, explicit_exclusion, same_class,
}

abbrev place : Provenance
place = record {
  document = codes "DDI0403";
  revision = codes "E";
  section = [];
  table = [];
  row = [];
  page = none;
}

abbrev pub id_entry : StateEntry
id_entry = record {
  canonical_name = codes "CIDR0";
  source_id = codes "arm";
  architecture = codes "ARMv7-M";
  namespace = Namespace.arch;
  classification = emitted_state;
  provenance = place;
  width = some 32;
  access = none;
  encoding = some (codes "0xE0001FF0");
  encoding_kind = codes "absolute";
  readable = true;
  writable = false;
  feature_requirement = none;
  alias_of = none;
  reason = none;
  snapshot = true;
  derivation = codes "table";
  source_family = [];
  source_release = [];
  debug_regsel = some 18;
  debug_lsb = 0;
  debug_width = 8;
  component = codes "DWT";
}

abbrev excluded_entry : StateEntry
excluded_entry = record id_entry {
  canonical_name = codes "LAR";
  classification = explicit_exclusion;
  reason = some (codes "lock");
  debug_regsel = none;
  component = [];
}

abbrev import_report : ImportReport
import_report = record {
  architecture = codes "ARMv7-M";
  document = codes "DDI0403";
  revision = codes "E";
  source_records = 2;
  counts = no_counts;
  tables = [];
  crosschecks = [];
  unclassified = [];
}

abbrev doc : Manifest
unfolding write_manifest state_id
doc = write_manifest (id_entry ∷ excluded_entry ∷ []) import_report

coverage-write_manifest_example :
    let cov = coverage (write_manifest (id_entry ∷ excluded_entry ∷ []) import_report) in
    (reported (classification_value emitted_state) cov.counts
      ≡ count
          (λ (e : StateEntry). same_class e.classification emitted_state)
          (id_entry ∷ excluded_entry ∷ []))
    × (cov.total_entries ≡ length (id_entry ∷ excluded_entry ∷ []))
    × (cov.unclassified ≡ [])
coverage-write_manifest_example =
    coverage-write_manifest (id_entry ∷ excluded_entry ∷ []) import_report emitted_state

generate_status_lem_example :
    ((generate_status (doc ∷ []) 0 ≡ 0)
      ↔ All (λ (m : Manifest). All IsAccounted m.entries) (doc ∷ []))
    × ((generate_status (doc ∷ []) 0 ≡ 0) ⊎ (generate_status (doc ∷ []) 0 ≡ 1))
generate_status_lem_example = generate_status_lem (doc ∷ [])

dbgreg_lines-HasDescriptor_example :
    All (HasDescriptor (state_lines doc.entries)) (dbgreg_lines doc.entries)
dbgreg_lines-HasDescriptor_example = dbgreg_lines-HasDescriptor doc.entries

count-descriptors_example :
    count is_state_line (state_lines doc.entries)
    ≡ reported (codes "emitted_state") (coverage doc).counts
      + reported (codes "conditional_state") (coverage doc).counts
count-descriptors_example = count-descriptors doc

abbrev block_line : Macro
block_line = hw_component (codes "DWT") 0xE0001000

render-line :
    map render (dbgreg_lines doc.entries) ≡ codes "HW_DBGREG(DWT_CIDR0, \"CIDR0\", 18, 0, 8)" ∷ []
unfolding render dbgreg_lines write_manifest state_id truthy
render-line = refl

render-block : render block_line ≡ codes "HW_COMPONENT(DWT, \"DWT\", 0xE0001000u)"
unfolding render
render-block = refl

abbrev renamed : ManifestEntry
unfolding state_id
renamed = record (to_dict id_entry) { encoding = some (codes "0xE0001FF4") }

diff_status_lem_example :
    let before = index doc.entries [] in
    let after = index (renamed ∷ []) [] in
    ((diff_status before after ≡ 0) ↔ ((k : Text) → SameAt (lookup k before) (lookup k after)))
    × ((diff_status before after ≡ 0) ⊎ (diff_status before after ≡ 1))
diff_status_lem_example = diff_status_lem doc.entries (renamed ∷ [])

diff_status-equal : diff_status (index doc.entries []) (index doc.entries []) ≡ 0
unfolding diff_status index write_manifest state_id text_eq
diff_status-equal = refl

diff_status-renamed : diff_status (index (renamed ∷ []) []) (index (to_dict id_entry ∷ []) []) ≡ 1
unfolding diff_status index state_id text_eq to_dict
diff_status-renamed = refl

first_at-found : first_at (codes "0XE0001FF0") doc.entries ≡ some (codes "CIDR0")
unfolding first_at write_manifest state_id
first_at-found = refl

abbrev sysm_entry : ManifestEntry
sysm_entry = record (to_dict id_entry) {
  canonical_name = codes "MSP";
  encoding = some (codes "SYSm=8");
}

abbrev assembler : Text → Option ℕ
assembler name = if text_eq name (codes "msp") then some 8 else none

abbrev agreed_tally : Tally
agreed_tally = record { checked = 1; agreed = 1; mismatches = []; unsupported = [] }

check_entries_lem_example :
    All (IsConfirmed assembler) (sysm_entry ∷ []) × (agreed_tally.checked ≡ agreed_tally.agreed)
check_entries_lem_example =
    check_entries_lem (codes "llvm-mc") assembler (sysm_entry ∷ []) agreed_tally
      (unfold check_entries text_eq to_dict in refl) (unfold oracle_status in refl)

abbrev cmsis_header : AddressMap CmsisReg
cmsis_header =
    (
      0xE0001FF0,
      record { address = 0xE0001FF0; struct_name = codes "DWT"; field = codes "CID0"; width = 32 },
    )
    ∷ (
      0xE000E010,
      record {
        address = 0xE000E010;
        struct_name = codes "SysTick";
        field = codes "CTRL";
        width = 32;
      },
    )
    ∷ []

abbrev placed : ManifestEntry
placed = record (to_dict id_entry) { access = some (codes "memory_mapped") }

diff_against-run : (diff_against (placed ∷ []) cmsis_header).in_both ≡ 1
unfolding diff_against to_dict text_eq
diff_against-run = refl
