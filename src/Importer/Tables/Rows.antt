-- ===== src/Importer/Tables/Rows.antt =====
-- The invariant rule of the loops over tables and records: what each kind of row must keep.
use libhw.Base.{
  >>=-eq-ok, Bool-cases, Dict, List, Option, Text, [], fold_result, fold_result_inv, inl, inr,
  insert, key_error, length, lookup, none, ok, ok-injective, or_else, refl, require, some,
  source_error, subst, ◌++◌, ◌∷◌, ◌≡◌,
}
use libhw.Model.Kinds.{Access}
use libhw.Model.Entry.{StateEntry, state_id}
use libhw.Pdf.Table.{Table}
use libhw.Importer.Rules.{Inputs, RawRecord, Rule}
use libhw.Importer.Access.{profile_access}
use libhw.Importer.Classify.{Verdict, classify}
use libhw.Importer.Records.{
  Progress, add_at, add_named, add_reserved, import_record, is_reserved, named_entry, repeat_entry,
  reserved_entry,
}
use libhw.Importer.Tables.{
  Import, check_leftover, close_table, fresh_stats, import_table, import_tables, visit_table,
}

-- `P` holds of `entries` and `seen`, and every row of a table keeps it.
pub record RowRule {ℓ} (P : List StateEntry → Dict StateEntry → Type ℓ) : Type ℓ where
  pub on_reserved :
      (inp : Inputs) (tid : Text) (rule : Rule) (table : Table) (rec : RawRecord) (access : Access)
      → (entries : List StateEntry) (seen : Dict StateEntry) → P entries seen
      → P (entries ++ (reserved_entry inp tid rule table rec access ∷ [])) seen
  pub on_repeated :
      (inp : Inputs) (tid : Text) (rule : Rule) (table : Table) (name : Text) (rec : RawRecord)
      → (v : Verdict) (access : Access) (first : StateEntry)
      → (entries : List StateEntry) (seen : Dict StateEntry) → P entries seen
      → P
          (entries
            ++ (repeat_entry tid name first (named_entry inp tid rule table name rec v access)
                ∷ []))
          seen
  pub on_new :
      (inp : Inputs) (tid : Text) (rule : Rule) (table : Table) (name : Text) (rec : RawRecord)
      → (v : Verdict) (access : Access) → (entries : List StateEntry) (seen : Dict StateEntry)
      → lookup (state_id (named_entry inp tid rule table name rec v access)) seen ≡ none
      → P entries seen
      → P (entries ++ (named_entry inp tid rule table name rec v access ∷ [])) (
          insert
            (state_id (named_entry inp tid rule table name rec v access))
            (named_entry inp tid rule table name rec v access)
            seen)

module _ {ℓ} {P : List StateEntry → Dict StateEntry → Type ℓ} (r : RowRule P) where
  abbrev OnProgress : Progress → Type ℓ
  OnProgress p = P p.entries p.seen

  add_at-keeps :
      (inp : Inputs) (tid : Text) (rule : Rule) (table : Table) (name : Text) (rec : RawRecord)
      → (v : Verdict) (access : Access) (o : Option StateEntry) (p : Progress)
      → lookup (state_id (named_entry inp tid rule table name rec v access)) p.seen ≡ o
      → OnProgress p
      → OnProgress (add_at tid name (named_entry inp tid rule table name rec v access) o p)
  unfolding add_at
  add_at-keeps inp tid rule table name rec v access none p e h =
      r.on_new inp tid rule table name rec v access p.entries p.seen e h
  add_at-keeps inp tid rule table name rec v access (some first) p e h =
      r.on_repeated inp tid rule table name rec v access first p.entries p.seen h

  import_record-keeps :
      (inp : Inputs) (tid : Text) (rule : Rule) (table : Table) (rec : RawRecord) (p q : Progress)
      → import_record inp tid rule table rec p ≡ ok q
      → OnProgress p
      → OnProgress q
  unfolding import_record add_reserved add_named
  import_record-keeps inp tid rule table rec p q h k = elim (Bool-cases (is_reserved rec)) [
    | inl e ↦
        let (access, _, eq) = >>=-eq-ok (profile_access rule.profile) _ (rw e at h) in
        subst OnProgress (ok-injective _ q eq)
          (r.on_reserved inp tid rule table rec access p.entries p.seen k)
    | inr e ↦
        let name = or_else rec.name [] in
        let (v, _, rest) = >>=-eq-ok (classify inp rule name rec) _ (rw e at h) in
        let (access, _, eq) = >>=-eq-ok (profile_access rule.profile) _ rest in
        subst OnProgress (ok-injective _ q eq)
          (add_at-keeps inp tid rule table name rec v access _ p refl k)
  ]

  import_table-keeps :
      (inp : Inputs) (tid : Text) (rule : Rule) (table : Table) (s t : Import)
      → import_table inp tid rule table s ≡ ok t
      → P s.entries s.seen
      → P t.entries t.seen
  unfolding import_table close_table
  import_table-keeps inp tid rule table s t h k =
      let (parse, _, h1) = >>=-eq-ok (require (lookup rule.profile inp.profiles) key_error) _ h in
      let (_, _, h2) = >>=-eq-ok (check_leftover inp rule table) _ h1 in
      let first : Progress = record {
        entries = s.entries;
        seen = s.seen;
        stats = fresh_stats (length (parse table));
      } in
      let step = import_record inp tid rule table in
      let (p, loop, eq) = >>=-eq-ok (fold_result step (parse table) first) _ h2 in
      subst (λ i. P i.entries i.seen) (ok-injective _ t eq)
        (fold_result_inv OnProgress step (import_record-keeps inp tid rule table) (parse table)
          first p loop k)

  visit_table-keeps :
      (inp : Inputs) (rules : Dict Rule) (tables : Dict Table) (tid : Text) (s t : Import)
      → visit_table inp rules tables tid s ≡ ok t
      → P s.entries s.seen
      → P t.entries t.seen
  unfolding visit_table
  visit_table-keeps inp rules tables tid s t h k =
      let (rule, _, h1) = >>=-eq-ok (require (lookup tid rules) key_error) _ h in
      let (table, _, h2) = >>=-eq-ok (require (lookup tid tables) source_error) _ h1 in
      import_table-keeps inp tid rule table s t h2 k

  pub import_tables-keeps :
      (inp : Inputs) (rules : Dict Rule) (tables : Dict Table) (ids : List Text) (s t : Import)
      → import_tables inp rules tables ids s ≡ ok t
      → P s.entries s.seen
      → P t.entries t.seen
  unfolding import_tables
  import_tables-keeps inp rules tables ids s t h k =
      fold_result_inv (λ i. P i.entries i.seen) (visit_table inp rules tables)
        (visit_table-keeps inp rules tables) ids s t h k
