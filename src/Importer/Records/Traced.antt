-- ===== src/Importer/Records/Traced.antt =====
-- Which record an entry of a table was made of.
use libhw.Base.{
  >>=-eq-ok, Bool-cases, List, Option, Text, [], ap, append-nil, append_assoc, codes, false,
  fold_result, inl, inr, none, ok, ok-injective, or_else, refl, some, subst, sym, true, ◌++◌, ◌∙◌,
  ◌∷◌, ◌≡◌, ◌⊎◌,
}
use libhw.Importer.Access.{profile_access}
use libhw.Importer.Classify.{Verdict, classify}
use libhw.Importer.Records.{
  Progress, add_at, add_named, add_reserved, import_record, is_reserved, named_entry, provenance_of,
  repeat_entry, reserved_entry, show_address,
}
use libhw.Importer.Rules.{Inputs, RawRecord, Rule}
use libhw.Model.Entry.{StateEntry}
use libhw.Model.Kinds.{Access, explicit_exclusion}
use libhw.Pdf.Table.{Table}
use libhw.Profiles.Row.{rest_of}

-- The entry is made of the record: it has the record's provenance, and the name of the register, or, for a
-- reserved row, the name of its address range and the class of an exclusion.
abbrev IsEntryOf : Inputs → Rule → Table → RawRecord → StateEntry → Type 0
IsEntryOf inp rule table rec e =
    (e.provenance ≡ provenance_of inp rule table rec)
    × (((is_reserved rec ≡ true)
          × (e.canonical_name ≡ codes "RESERVED_" ++ show_address rec.address)
          × (e.classification ≡ explicit_exclusion))
        ⊎ ((is_reserved rec ≡ false) × (e.canonical_name ≡ or_else rec.name [])))

-- One entry for each record, in the order of the records.
abbrev pub AreEntriesOf : Inputs → Rule → Table → List RawRecord → List StateEntry → Type 0
AreEntriesOf inp rule table [] [] = Unit
AreEntriesOf inp rule table (rec ∷ recs) (e ∷ es) =
    IsEntryOf inp rule table rec e × AreEntriesOf inp rule table recs es
AreEntriesOf inp rule table _ _ = ⊥

module _ (inp : Inputs) (tid : Text) (rule : Rule) (table : Table) (rec : RawRecord) where
  abbrev Adds : Progress → Progress → Type 0
  Adds p q = (e : StateEntry) × (q.entries ≡ p.entries ++ (e ∷ [])) × IsEntryOf inp rule table rec e

  add_reserved-Adds :
      (access : Access) (p : Progress)
      → is_reserved rec ≡ true
      → Adds p (add_reserved (reserved_entry inp tid rule table rec access) p)
  unfolding add_reserved reserved_entry
  add_reserved-Adds access p r = (_, refl, (refl, inl (r, refl, refl)))

  add_at-Adds :
      (v : Verdict) (access : Access) (o : Option StateEntry) (p : Progress)
      → is_reserved rec ≡ false
      → let name = or_else rec.name [] in
        Adds p (add_at tid name (named_entry inp tid rule table name rec v access) o p)
  unfolding add_at named_entry repeat_entry
  add_at-Adds v access none p n = (_, refl, (refl, inr (n, refl)))
  add_at-Adds v access (some first) p n = (_, refl, (refl, inr (n, refl)))

  import_record-Adds : (p q : Progress) → import_record inp tid rule table rec p ≡ ok q → Adds p q
  unfolding import_record add_named
  import_record-Adds p q h = elim (Bool-cases (is_reserved rec)) [
    | inl r ↦
        let (access, _, eq) = >>=-eq-ok (profile_access rule.profile) _ (rw r at h) in
        subst (Adds p) (ok-injective _ q eq) (add_reserved-Adds access p r)
    | inr n ↦
        let (v, _, rest) = >>=-eq-ok (classify inp rule (or_else rec.name []) rec) _ (rw n at h) in
        let (access, _, eq) = >>=-eq-ok (profile_access rule.profile) _ rest in
        subst (Adds p) (ok-injective _ q eq) (add_at-Adds v access _ p n)
  ]

-- The records of a table add one entry each, after those that were there.
pub import_records-AreEntriesOf :
    (inp : Inputs) (tid : Text) (rule : Rule) (table : Table) (recs : List RawRecord)
    → (p q : Progress) → fold_result (import_record inp tid rule table) recs p ≡ ok q
    → (es : List StateEntry) × (q.entries ≡ p.entries ++ es) × AreEntriesOf inp rule table recs es
unfolding fold_result
import_records-AreEntriesOf inp tid rule table [] p q h = (
  [],
  ap (λ (r : Progress). r.entries) (sym (ok-injective p q h)) ∙ sym (append-nil p.entries),
  tt,
)
import_records-AreEntriesOf inp tid rule table (rec ∷ recs) p q h =
    let (mid, first, rest) = >>=-eq-ok (import_record inp tid rule table rec p) _ h in
    let (e, added, of) = import_record-Adds inp tid rule table rec p mid first in
    let (es, grown, rest_of) = import_records-AreEntriesOf inp tid rule table recs mid q rest in
    (e ∷ es, grown ∙ (ap (λ l. l ++ es) added ∙ append_assoc p.entries (e ∷ []) es), (of, rest_of))
