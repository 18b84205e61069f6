-- ===== src/Importer/Manual/Recorded.antt =====
-- An import of a manual drops no row of a summary.
use libhw.Base.{
  required_at, >>=-eq-ok, All, Bool-cases, Dict, List, Result, Text, [], codes, err, false,
  fold_result, inl, inr, key_error, lookup, ok, raise_if, refl, require, some, source_error, sym,
  text_eq, true, ℕ, ◌∙◌, ◌∷◌, ◌≡◌, ◌⊎◌,
}
use libhw.Bindings.Flash.{checked}
use libhw.Importer.Manual.{manual}
use libhw.Importer.Rules.{Inputs, Rule, Rules}
use libhw.Importer.Tables.{
  Import, check_leftover, import_table, import_tables, nothing_imported, visit_table,
}
use libhw.Importer.Target.{
  ImportReport, Reviewed, has_undecided, import_document, import_entries, inputs_of, kept_ids,
  sorted, tables_of,
}
use libhw.Model.Entry.{StateEntry}
use libhw.Pdf.Table.{Table}
use libhw.Profiles.Summary.{parse_addr_name_type_reset, unparsed_rows}
use libhw.Profiles.Summary.Complete.{AllRecorded, unparsed_rows_complete}
use libhw.Sources.{Source}

-- The table of the id, and what the import of the manual guarantees of its lines.
abbrev pub IsRecorded : Dict Rule → Dict Table → Text → Type 0
IsRecorded rules tables tid =
    (rule : Rule) × (table : Table) × (lookup tid rules ≡ some rule)
    × (lookup tid tables ≡ some table)
    × ((text_eq rule.profile (codes "addr_name_type_reset") ≡ false)
        ⊎ (let (records, marked) = parse_addr_name_type_reset table in
            AllRecorded 0 marked.consumed_lines records table.raw_lines))

module _ (inp : Inputs)
    (unparsed : (t : Table)
      → inp.unparsed_rows t ≡ unparsed_rows (parse_addr_name_type_reset t).1) where
  check_leftover-recorded :
      (rule : Rule) (t : Table) (u : Unit {0})
      → check_leftover inp rule t ≡ ok u
      → text_eq rule.profile (codes "addr_name_type_reset") ≡ true
      → unparsed_rows (parse_addr_name_type_reset t).1 ≡ []
  unfolding check_leftover
  check_leftover-recorded rule t u h e =
      sym (unparsed t) ∙ no_rows (inp.unparsed_rows t) (rw e at h)
    where
      no_rows :
          (rows : List (ℕ × Text))
          → (elim rows as (λ x. Result (Unit {0})) [ [] ↦ ok tt | r ∷ rs ↦ err source_error ])
            ≡ ok u
          → rows ≡ []
      no_rows [] h = refl
      no_rows (r ∷ rs) h = cc

  visit_table-IsRecorded :
      (rules : Dict Rule) (tables : Dict Table) (tid : Text) (s t : Import)
      → visit_table inp rules tables tid s ≡ ok t
      → IsRecorded rules tables tid
  unfolding visit_table import_table
  visit_table-IsRecorded rules tables tid s t h =
      let (rule, ruled, h1) = >>=-eq-ok (require (lookup tid rules) key_error) _ h in
      let (table, there, h2) = >>=-eq-ok (require (lookup tid tables) source_error) _ h1 in
      let (parse, parser, h3) =
        >>=-eq-ok (require (lookup rule.profile inp.profiles) key_error) _ h2 in
      let (u, checked, h4) = >>=-eq-ok (check_leftover inp rule table) _ h3 in
      (
        rule,
        table,
        required_at _ key_error ruled,
        required_at _ source_error there,
        elim (Bool-cases (text_eq rule.profile (codes "addr_name_type_reset"))) [
          | inr e ↦ inl e
          | inl e ↦
              inr (unparsed_rows_complete table (check_leftover-recorded rule table u checked e))
        ],
      )

  visit_tables-IsRecorded :
      (rules : Dict Rule) (tables : Dict Table) (ids : List Text) (s t : Import)
      → fold_result (visit_table inp rules tables) ids s ≡ ok t
      → All (IsRecorded rules tables) ids
  unfolding fold_result
  visit_tables-IsRecorded rules tables [] s t h = tt
  visit_tables-IsRecorded rules tables (tid ∷ ids) s t h =
      let (mid, first, rest) =
        >>=-eq-ok (visit_table inp rules tables tid s)
          (fold_result (visit_table inp rules tables) ids) h in
      (
        visit_table-IsRecorded rules tables tid s mid first,
        visit_tables-IsRecorded rules tables ids mid t rest,
      )

-- If the import of a manual returns, then each kept table has a rule and is in the manual, and of each
-- kept summary every line that starts with an address has its records among those of the table, but for
-- absorbed lines, bare addresses, and lines with only the shape of a reserved row.
pub import_document-IsRecorded :
    (pdf_pages : Text → List Text) (r : Reviewed) (rules : Rules) (src : Source) (names : List Text)
    → (addrs : Dict Text) (path : Text) (result : List StateEntry × ImportReport)
    → import_document (manual pdf_pages) r rules src names addrs path ≡ ok result
    → All
        (IsRecorded rules.tables (tables_of (manual pdf_pages) rules path))
        (sorted (kept_ids rules.tables))
unfolding import_document import_entries import_tables manual inputs_of
import_document-IsRecorded pdf_pages r rules src names addrs path result h =
    let doc = manual pdf_pages in
    let inp = inputs_of r rules src doc names addrs in
    let tables = tables_of doc rules path in
    let ids = sorted (kept_ids rules.tables) in
    let (_, _, h1) = >>=-eq-ok (raise_if (has_undecided doc rules path) source_error) _ h in
    let (made, eq, _) = >>=-eq-ok (import_entries inp rules tables ids) _ h1 in
    let (i, visited, _) =
      >>=-eq-ok (import_tables inp rules.tables tables ids nothing_imported) _ eq in
    visit_tables-IsRecorded inp (λ t. refl) rules.tables tables ids nothing_imported i visited
