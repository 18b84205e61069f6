-- ===== src/Importer/Declared/Doubles.antt =====
-- The guard `name in seen` of the declared registers and of the register files.
use libhw.Base.{Dict, List, Text, false, ok, refl, some, true, ◌≡◌}
use libhw.Model.Kinds.{Classification, classification_of}
use libhw.Model.Entry.{has_colon}
use libhw.Pdf.Table.{Table}
use libhw.Importer.Rules.{Inputs, Override, Rule}
use libhw.Importer.Tables.{Import, import_tables, nothing_imported}
use libhw.Importer.Tables.Keys.{import_tables-has_key}
use libhw.Importer.Declared.{declared_entry, import_declared, record_under}

-- The tables of an import record what they list under its identifier, and the guard asks for a name.
-- So a declared register is added after the tables whatever they list, one of the same name
-- included: its entry is appended, and the state is not left as it is.
pub import_declared_doubles :
    (inp : Inputs) (rules : Dict Rule) (tables : Dict Table) (ids : List Text) (t : Import)
    → import_tables inp rules tables ids nothing_imported ≡ ok t
    → (name raw : Text) (ov : Override) (cls : Classification) → has_colon name ≡ false
    → ov.declare ≡ true
    → ov.class ≡ some raw
    → classification_of raw ≡ ok cls
    → import_declared inp (name, some ov) (record { entries = t.entries; seen = t.seen })
      ≡ ok (
          record_under name
            (declared_entry inp name ov cls)
            (record { entries = t.entries; seen = t.seen }))
unfolding import_declared
import_declared_doubles inp rules tables ids t h name raw ov cls plain d c k =
    rw (d, import_tables-has_key inp rules tables ids t h name plain, c, k) refl
