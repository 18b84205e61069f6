-- ===== src/Importer/Target/Every.antt =====
-- What holds of every entry of an import, by the five places that build one.
use libhw.Base.{
  >>=-eq-ok, All, All-append, Bool-cases, Dict, List, Option, Text, [], fold_result,
  fold_result_inv, has_key, inl, inr, key_error, none, not, ok, ok-injective, range_from, require,
  some, subst, ℕ, ◌++◌, ◌||◌, ◌∷◌, ◌≡◌,
}
use libhw.Model.Kinds.{Access, Classification, classification_of}
use libhw.Model.Entry.{Alias, StateEntry}
use libhw.Pdf.Table.{Table}
use libhw.Importer.Rules.{Inputs, Override, RawRecord, RegisterFile, Rule, Rules}
use libhw.Importer.Classify.{Verdict}
use libhw.Importer.Records.{named_entry, repeat_entry, reserved_entry}
use libhw.Importer.Tables.{Import, import_tables, nothing_imported}
use libhw.Importer.Tables.Rows.{RowRule, import_tables-keeps}
use libhw.Importer.Declared.{
  Book, declared_entry, file_access, file_alias, file_entry, format_number, import_declared,
  import_file, import_member, record_under,
}
use libhw.Importer.Target.{import_entries}

pub record EntryRule {ℓ} (Q : StateEntry → Type ℓ) : Type ℓ where
  pub of_reserved :
      (inp : Inputs) (tid : Text) (rule : Rule) (table : Table) (rec : RawRecord) (access : Access)
      → Q (reserved_entry inp tid rule table rec access)
  pub of_named :
      (inp : Inputs) (tid : Text) (rule : Rule) (table : Table) (name : Text) (rec : RawRecord)
      → (v : Verdict) (access : Access) → Q (named_entry inp tid rule table name rec v access)
  pub of_repeat : (tid name : Text) (first e : StateEntry) → Q e → Q (repeat_entry tid name first e)
  pub of_declared :
      (inp : Inputs) (name : Text) (ov : Override) (cls : Classification)
      → Q (declared_entry inp name ov cls)
  pub of_file :
      (inp : Inputs) (fkey : Text) (spec : RegisterFile) (cls : Classification) (n : ℕ)
      (name : Text)
      → (a : Option Alias) (access : Access) → Q (file_entry inp fkey spec cls n name a access)

module _ {ℓ} {Q : StateEntry → Type ℓ} (r : EntryRule Q) where
  snoc : (es : List StateEntry) (e : StateEntry) → All Q es → Q e → All Q (es ++ (e ∷ []))
  snoc es e h q = All-append Q es (e ∷ []) h (q, tt)

  rows_rule : RowRule (λ entries seen. All Q entries)
  rows_rule = record {
    on_reserved = λ inp tid rule table rec access entries seen h.
        snoc entries _ h (r.of_reserved inp tid rule table rec access);
    on_repeated = λ inp tid rule table name rec v access first entries seen h.
        snoc entries _ h
          (r.of_repeat tid name first _ (r.of_named inp tid rule table name rec v access));
    on_new = λ inp tid rule table name rec v access entries seen new h.
        snoc entries _ h (r.of_named inp tid rule table name rec v access);
  }

  declared-All :
      (inp : Inputs) (x : Text × Option Override) (b c : Book)
      → import_declared inp x b ≡ ok c
      → All Q b.entries
      → All Q c.entries
  unfolding import_declared record_under
  declared-All inp (name, none) b c h q = subst (λ d. All Q d.entries) (ok-injective b c h) q
  declared-All inp (name, some ov) b c h q =
      elim (Bool-cases (not ov.declare || has_key name b.seen)) [
        | inl skip ↦ subst (λ d. All Q d.entries) (ok-injective b c (rw skip at h)) q
        | inr take_it ↦
            let (raw, _, h1) = >>=-eq-ok (require ov.class key_error) _ (rw take_it at h) in
            let (cls, _, eq) = >>=-eq-ok (classification_of raw) _ h1 in
            subst (λ d. All Q d.entries) (ok-injective _ c eq)
              (snoc b.entries _ q (r.of_declared inp name ov cls))
      ]

  member-All :
      (inp : Inputs) (fkey : Text) (spec : RegisterFile) (cls : Classification) (n : ℕ) (b c : Book)
      → import_member inp fkey spec cls n b ≡ ok c
      → All Q b.entries
      → All Q c.entries
  unfolding import_member record_under
  member-All inp fkey spec cls n b c h q =
      let (name, _, h1) = >>=-eq-ok (format_number spec.name_format n) _ h in
      elim (Bool-cases (has_key name b.seen)) [
        | inl skip ↦ subst (λ d. All Q d.entries) (ok-injective b c (rw skip at h1)) q
        | inr take_it ↦
            let (alias_of, _, h2) = >>=-eq-ok (file_alias spec n) _ (rw take_it at h1) in
            let (access, _, eq) = >>=-eq-ok (file_access spec) _ h2 in
            subst (λ d. All Q d.entries) (ok-injective _ c eq)
              (snoc b.entries _ q (r.of_file inp fkey spec cls n name alias_of access))
      ]

  file-All :
      (inp : Inputs) (x : Text × RegisterFile) (b c : Book)
      → import_file inp x b ≡ ok c
      → All Q b.entries
      → All Q c.entries
  unfolding import_file
  file-All inp (fkey, spec) b c h q =
      let (cls, _, loop) = >>=-eq-ok (classification_of spec.class) _ h in
      fold_result_inv (λ d. All Q d.entries) (import_member inp fkey spec cls)
        (member-All inp fkey spec cls) (range_from 0 spec.count) b c loop q

  pub import_entries-All :
      (inp : Inputs) (rules : Rules) (tables : Dict Table) (ids : List Text) (i : Import)
      → (entries : List StateEntry) → import_entries inp rules tables ids ≡ ok (i, entries)
      → All Q entries
  unfolding import_entries
  import_entries-All inp rules tables ids i entries h =
      let (j, first, h1) =
        >>=-eq-ok (import_tables inp rules.tables tables ids nothing_imported) _ h in
      let start : Book = record { entries = j.entries; seen = j.seen } in
      let (b, declared, h2) =
        >>=-eq-ok (fold_result (import_declared inp) inp.overrides start) _ h1 in
      let (c, files, eq) = >>=-eq-ok (fold_result (import_file inp) inp.register_files b) _ h2 in
      let tabled =
        import_tables-keeps rows_rule inp rules.tables tables ids nothing_imported j first tt in
      let told =
        fold_result_inv (λ d. All Q d.entries) (import_declared inp) (declared-All inp)
          inp.overrides start b declared tabled in
      let filed =
        fold_result_inv (λ d. All Q d.entries) (import_file inp) (file-All inp) inp.register_files b
          c files told in
      subst (λ (p : Import × List StateEntry). All Q p.1)
        (ok-injective (j, c.entries) (i, entries) eq) filed
