-- ===== src/Importer/Declared/Appends.antt =====
-- The loops over declared registers and register files only append entries.
use mathlib.Core.Path.{subst₂}
use libhw.Base.{
  >>=-eq-ok, Bool-cases, Dict, List, Option, Text, [], ap, append-nil, append_assoc, fold_result,
  fold_result_inv, has_key, inl, inr, key_error, none, not, ok, ok-injective, range_from, refl,
  require, some, subst, sym, ℕ, ◌++◌, ◌||◌, ◌∙◌, ◌∷◌, ◌≡◌,
}
use libhw.Model.Kinds.{Classification, classification_of}
use libhw.Model.Entry.{StateEntry}
use libhw.Pdf.Table.{Table}
use libhw.Importer.Rules.{Inputs, Override, RegisterFile, Rules}
use libhw.Importer.Tables.{Import, import_tables, nothing_imported}
use libhw.Importer.Declared.{
  Book, file_access, file_alias, format_number, import_declared, import_file, import_member,
  record_under,
}
use libhw.Importer.Target.{import_entries}

abbrev pub Extends : List StateEntry → List StateEntry → Type 0
Extends before after = (more : List StateEntry) × (after ≡ before ++ more)

Extends-trans : (a b c : List StateEntry) → Extends a b → Extends b c → Extends a c
Extends-trans a b c (m, p) (n, q) = (m ++ n, q ∙ (ap (λ l. l ++ n) p ∙ append_assoc a m n))

record_under-Extends :
    (name : Text) (e : StateEntry) (b : Book) → Extends b.entries (record_under name e b).entries
unfolding record_under
record_under-Extends name e b = (e ∷ [], refl)

import_declared-Extends :
    (inp : Inputs) (x : Text × Option Override) (b c : Book)
    → import_declared inp x b ≡ ok c
    → Extends b.entries c.entries
unfolding import_declared
import_declared-Extends inp (name, none) b c h = ([], cc (append-nil b.entries, ok-injective b c h))
import_declared-Extends inp (name, some ov) b c h =
    elim (Bool-cases (not ov.declare || has_key name b.seen)) [
      | inl skip ↦ ([], cc (append-nil b.entries, ok-injective b c (rw skip at h)))
      | inr take_it ↦
          let (raw, _, h1) = >>=-eq-ok (require ov.class key_error) _ (rw take_it at h) in
          let (cls, _, eq) = >>=-eq-ok (classification_of raw) _ h1 in
          subst (λ d. Extends b.entries d.entries) (ok-injective _ c eq)
            (record_under-Extends name _ b)
    ]

import_member-Extends :
    (inp : Inputs) (fkey : Text) (spec : RegisterFile) (cls : Classification) (n : ℕ) (b c : Book)
    → import_member inp fkey spec cls n b ≡ ok c
    → Extends b.entries c.entries
unfolding import_member
import_member-Extends inp fkey spec cls n b c h =
    let (name, _, h1) = >>=-eq-ok (format_number spec.name_format n) _ h in
    elim (Bool-cases (has_key name b.seen)) [
      | inl skip ↦ ([], cc (append-nil b.entries, ok-injective b c (rw skip at h1)))
      | inr take_it ↦
          let (alias_of, _, h2) = >>=-eq-ok (file_alias spec n) _ (rw take_it at h1) in
          let (access, _, eq) = >>=-eq-ok (file_access spec) _ h2 in
          subst (λ d. Extends b.entries d.entries) (ok-injective _ c eq)
            (record_under-Extends name _ b)
    ]

Extends-refl : (b : Book) → Extends b.entries b.entries
Extends-refl b = ([], sym (append-nil b.entries))

import_file-Extends :
    (inp : Inputs) (x : Text × RegisterFile) (b c : Book)
    → import_file inp x b ≡ ok c
    → Extends b.entries c.entries
unfolding import_file
import_file-Extends inp (fkey, spec) b c h =
    let (cls, _, loop) = >>=-eq-ok (classification_of spec.class) _ h in
    fold_result_inv (λ d. Extends b.entries d.entries) (import_member inp fkey spec cls)
      (λ n d e step ext.
        Extends-trans b.entries d.entries e.entries ext
          (import_member-Extends inp fkey spec cls n d e step))
      (range_from 0 spec.count) b c loop (Extends-refl b)

-- The entries of the tables come first and are kept as they are; declared registers and register
-- files follow them.
pub import_entries-Extends :
    (inp : Inputs) (rules : Rules) (tables : Dict Table) (ids : List Text) (i : Import)
    → (entries : List StateEntry) → import_entries inp rules tables ids ≡ ok (i, entries)
    → (import_tables inp rules.tables tables ids nothing_imported ≡ ok i)
      × Extends i.entries entries
unfolding import_entries
import_entries-Extends inp rules tables ids i entries h =
    let (j, first, h1) =
      >>=-eq-ok (import_tables inp rules.tables tables ids nothing_imported) _ h in
    let start : Book = record { entries = j.entries; seen = j.seen } in
    let (b, declared, h2) =
      >>=-eq-ok (fold_result (import_declared inp) inp.overrides start) _ h1 in
    let (c, files, eq) = >>=-eq-ok (fold_result (import_file inp) inp.register_files b) _ h2 in
    let ext_b : Extends j.entries b.entries =
      fold_result_inv (λ d. Extends j.entries d.entries) (import_declared inp)
        (λ x d e step ext.
          Extends-trans j.entries d.entries e.entries ext (import_declared-Extends inp x d e step))
        inp.overrides start b declared (Extends-refl start) in
    let ext_c : Extends j.entries c.entries =
      fold_result_inv (λ d. Extends j.entries d.entries) (import_file inp)
        (λ x d e step ext.
          Extends-trans j.entries d.entries e.entries ext (import_file-Extends inp x d e step))
        inp.register_files b c files ext_b in
    let both = ok-injective (j, c.entries) (i, entries) eq in
    let same : j ≡ i = ap (λ (p : Import × List StateEntry). p.0) both in
    let last : c.entries ≡ entries = ap (λ (p : Import × List StateEntry). p.1) both in
    (
      first ∙ ap ok same,
      subst₂ (λ (a : Import) (l : List StateEntry). Extends a.entries l) same last ext_c,
    )
