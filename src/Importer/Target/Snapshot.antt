-- ===== src/Importer/Target/Snapshot.antt =====
-- Which entries an import marks for the snapshot.
use libhw.Base.{
  All, All-mono, Bool-cases, Dict, List, Option, Text, arith, false, inl, inr, ok, refl, true, ℕ,
  ◌||◌, ◌≡◌, ◌⊎◌,
}
use libhw.Importer.Classify.{Verdict}
use libhw.Importer.Declared.{declared_entry, file_entry}
use libhw.Importer.Records.{
  in_snapshot_namespace, is_snapshot, named_entry, repeat_entry, reserved_entry,
}
use libhw.Importer.Records.Unique.{is_emitting}
use libhw.Importer.Rules.{Inputs, RawRecord, RegisterFile, Rule, Rules}
use libhw.Importer.Tables.{Import}
use libhw.Importer.Target.{import_entries}
use libhw.Importer.Target.Every.{EntryRule, import_entries-All}
use libhw.Model.Entry.{Alias, StateEntry}
use libhw.Model.Kinds.{
  Access, Classification, alias, architecture_defined, conditional_state, emitted_state,
  explicit_exclusion, non_state_operation, same_class,
}
use libhw.Pdf.Table.{Table}

-- The entry is readable, is architectural or CPU state, and is emitted or conditional state, or the
-- alias of a repeated row.
abbrev pub IsTakeable : StateEntry → Type 0
IsTakeable e =
    (e.readable ≡ true)
    × (in_snapshot_namespace e.namespace ≡ true)
    × ((is_emitting e.classification || same_class e.classification alias) ≡ true)

abbrev IfSnapshot : StateEntry → Type 0
IfSnapshot e = e.snapshot ≡ true → IsTakeable e

-- The entry is not in the snapshot, or may be taken.
abbrev pub SnapshotRule : StateEntry → Type 0
SnapshotRule e = (e.snapshot ≡ false) ⊎ IsTakeable e

IfSnapshot-SnapshotRule : (e : StateEntry) → IfSnapshot e → SnapshotRule e
IfSnapshot-SnapshotRule e q = elim (Bool-cases e.snapshot) [ inl h ↦ inr (q h) | inr h ↦ inl h ]

emitting :
    (c : Classification)
    → (same_class c emitted_state || same_class c conditional_state) ≡ is_emitting c
unfolding same_class is_emitting
emitting emitted_state = refl
emitting architecture_defined = refl
emitting alias = refl
emitting non_state_operation = refl
emitting conditional_state = refl
emitting explicit_exclusion = refl

named-IfSnapshot :
    (inp : Inputs) (tid : Text) (rule : Rule) (table : Table) (name : Text) (rec : RawRecord)
    → (v : Verdict) (access : Access)
    → IfSnapshot (named_entry inp tid rule table name rec v access)
unfolding named_entry is_snapshot
named-IfSnapshot inp tid rule table name rec v access h = ground (arith, emitting v.classification)

file-IfSnapshot :
    (inp : Inputs) (fkey : Text) (spec : RegisterFile) (cls : Classification) (n : ℕ) (name : Text)
    → (a : Option Alias) (access : Access)
    → IfSnapshot (file_entry inp fkey spec cls n name a access)
unfolding file_entry same_class is_emitting in_snapshot_namespace
file-IfSnapshot inp fkey spec conditional_state n name a access h = (refl, refl, refl)
file-IfSnapshot inp fkey spec cls n name a access h = cc

repeat-IfSnapshot :
    (tid name : Text) (first e : StateEntry)
    → IfSnapshot e
    → IfSnapshot (repeat_entry tid name first e)
unfolding repeat_entry same_class is_emitting
repeat-IfSnapshot tid name first e q h = let (r, n, c) = q h in (r, n, refl)

snapshot_rule : EntryRule IfSnapshot
unfolding reserved_entry declared_entry
snapshot_rule = record {
  of_reserved = λ inp tid rule table rec access h. cc;
  of_named = named-IfSnapshot;
  of_repeat = repeat-IfSnapshot;
  of_declared = λ inp name ov cls h. cc;
  of_file = file-IfSnapshot;
}

-- Every entry of an import, from a table, declared, or of a register file, that is marked for the
-- snapshot can be read, is architectural or CPU state, and is classified as emitted state, as
-- conditional state, or as an alias.
pub import_entries-SnapshotRule :
    (inp : Inputs) (rules : Rules) (tables : Dict Table) (ids : List Text) (i : Import)
    → (entries : List StateEntry) → import_entries inp rules tables ids ≡ ok (i, entries)
    → All SnapshotRule entries
import_entries-SnapshotRule inp rules tables ids i entries h =
    All-mono IfSnapshot-SnapshotRule entries
      (import_entries-All snapshot_rule inp rules tables ids i entries h)
