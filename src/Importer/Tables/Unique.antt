-- ===== src/Importer/Tables/Unique.antt =====
-- Over all tables, a register has at most one entry that becomes a state descriptor.
use libhw.Base.{
  Bool, Dict, List, Text, arith, count, false, has_key, if◌then◌else◌, ok, refl, true, ℕ, ◌≡◌, ◌≤◌,
}
use libhw.Pdf.Table.{Table}
use libhw.Importer.Rules.{Inputs, Rule}
use libhw.Importer.Records.{named_entry, repeat_entry, reserved_entry}
use libhw.Importer.Records.Unique.{IsUnique, IsUnique-new, IsUnique-quiet, emits, is_emitting}
use libhw.Importer.Tables.{Import, import_tables, nothing_imported}
use libhw.Importer.Tables.Rows.{RowRule, import_tables-keeps}

IsUnique-rows : RowRule IsUnique
unfolding reserved_entry repeat_entry is_emitting
IsUnique-rows = record {
  on_reserved = λ inp tid rule table rec access entries seen.
      IsUnique-quiet entries seen (reserved_entry inp tid rule table rec access) refl;
  on_repeated = λ inp tid rule table name rec v access first entries seen.
      IsUnique-quiet entries seen
        (repeat_entry tid name first (named_entry inp tid rule table name rec v access)) refl;
  on_new = λ inp tid rule table name rec v access entries seen.
      IsUnique-new entries seen (named_entry inp tid rule table name rec v access);
}

-- However often the tables list a register, at most one of their entries is emitted or conditional
-- state under its identifier.
pub import_tables_unique :
    (inp : Inputs) (rules : Dict Rule) (tables : Dict Table) (ids : List Text) (t : Import)
    → import_tables inp rules tables ids nothing_imported ≡ ok t
    → (k : Text) → count (emits k) t.entries ≤ 1
import_tables_unique inp rules tables ids t h k = bound (has_key k t.seen) (
    import_tables-keeps IsUnique-rows inp rules tables ids nothing_imported t h (λ k. omega arith)
      k)
  where
    bound : (b : Bool) {n : ℕ} → n ≤ (if b then 1 else 0) → n ≤ 1
    bound true h = h
    bound false h = omega arith
