-- ===== src/Importer/Tables/Keys.antt =====
-- What the table loop leaves in `seen`.
use libhw.Base.{
  All, Bool-cases, Dict, List, Text, [], ap, false, has_key, inl, inr, insert, ok, refl, text_eq,
  text_eq_iff, true, ◌∷◌, ◌≡◌,
}
use libhw.Model.Entry.{StateEntry, has_colon, has_colon-state_id}
use libhw.Pdf.Table.{Table}
use libhw.Importer.Rules.{Inputs, Rule}
use libhw.Importer.Records.{named_entry}
use libhw.Importer.Tables.{Import, import_tables, nothing_imported}
use libhw.Importer.Tables.Rows.{RowRule, import_tables-keeps}

abbrev pub KeysHaveColon : Dict StateEntry → Type 0
KeysHaveColon d = All (λ (k, e). has_colon k ≡ true) d

insert-KeysHaveColon :
    (k : Text) (e : StateEntry) (d : Dict StateEntry)
    → has_colon k ≡ true
    → KeysHaveColon d
    → KeysHaveColon (insert k e d)
unfolding insert
insert-KeysHaveColon k e [] c h = (c, tt)
insert-KeysHaveColon k e ((j, f) ∷ d) c h = elim (Bool-cases (text_eq j k)) [
  | inl same ↦ rw same h
  | inr other ↦ rw other (h.0, insert-KeysHaveColon k e d c h.1)
]

pub has_key-KeysHaveColon :
    (name : Text) (d : Dict StateEntry)
    → has_colon name ≡ false
    → KeysHaveColon d
    → has_key name d ≡ false
unfolding has_key
has_key-KeysHaveColon name [] n h = refl
has_key-KeysHaveColon name ((j, f) ∷ d) n h = elim (Bool-cases (text_eq j name)) [
  | inl same ↦ absurd (cc (ap has_colon ((text_eq_iff j name).0 same), h.0))
  | inr other ↦ rw other (has_key-KeysHaveColon name d n h.1)
]

colon_rows : RowRule (λ entries seen. KeysHaveColon seen)
colon_rows = record {
  on_reserved = λ inp tid rule table rec access entries seen h. h;
  on_repeated = λ inp tid rule table name rec v access first entries seen h. h;
  on_new = λ inp tid rule table name rec v access entries seen new h.
      insert-KeysHaveColon _ _ seen
        (has_colon-state_id (named_entry inp tid rule table name rec v access)) h;
}

-- No name without a colon is a key of `seen` after the tables, whatever registers they list.
pub import_tables-has_key :
    (inp : Inputs) (rules : Dict Rule) (tables : Dict Table) (ids : List Text) (t : Import)
    → import_tables inp rules tables ids nothing_imported ≡ ok t
    → (name : Text) → has_colon name ≡ false
    → has_key name t.seen ≡ false
import_tables-has_key inp rules tables ids t h name plain =
    has_key-KeysHaveColon name t.seen plain
      (import_tables-keeps colon_rows inp rules tables ids nothing_imported t h tt)
