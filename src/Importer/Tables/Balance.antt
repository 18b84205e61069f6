-- ===== src/Importer/Tables/Balance.antt =====
-- What the import of tables adds to the entries and the reports, record by record.
use mathlib.Core.Path.{subst₂}
use libhw.Base.{
  >>=-eq-ok, Dict, List, Text, [], ap, append-nil, append_assoc, arith, fold_result, key_error,
  length, lookup, ok, ok-injective, refl, require, required_at, some, source_error, subst, sym,
  ◌++◌, ◌+◌, ◌∙◌, ◌∷◌, ◌≡◌,
}
use libhw.Importer.Records.{Progress, import_record}
use libhw.Importer.Records.Balance.{import_records-counted, total}
use libhw.Importer.Records.Traced.{AreEntriesOf, import_records-AreEntriesOf}
use libhw.Importer.Rules.{Inputs, RawRecord, Rule}
use libhw.Importer.Tables.{
  Import, TableReport, check_leftover, close_table, fresh_stats, import_table, import_tables,
  nothing_imported, visit_table,
}
use libhw.Model.Entry.{StateEntry}
use libhw.Pdf.Table.{Table, label}

-- What the import of the tables with the given ids adds: for each id its rule, its table of the document
-- and the profile of the rule, one entry for each record that the profile finds in the table, and one
-- report, of as many rows, each counted once.
pub data IsImportOf (inp : Inputs) (rules : Dict Rule) (tables : Dict Table)
    : List Text → List StateEntry → List TableReport → Type 0 where
  no_table : IsImportOf inp rules tables [] [] []
  next_table :
      {tid : Text} {ids : List Text} {r : TableReport} {rs : List TableReport}
      → (es more : List StateEntry) (rule : Rule) (table : Table) (parse : Table → List RawRecord)
      → lookup tid rules ≡ some rule
      → lookup tid tables ≡ some table
      → lookup rule.profile inp.profiles ≡ some parse
      → AreEntriesOf inp rule table (parse table) es
      → r.id ≡ tid
      → r.stats.rows ≡ length (parse table)
      → total r.stats ≡ r.stats.rows
      → IsImportOf inp rules tables ids more rs
      → IsImportOf inp rules tables (tid ∷ ids) (es ++ more) (r ∷ rs)

module _ (inp : Inputs) (rules : Dict Rule) (tables : Dict Table) where
  -- From one state of the import to a later one.
  abbrev Adds : List Text → Import → Import → Type 0
  Adds ids s t =
      (es : List StateEntry) × (rs : List TableReport) × (t.entries ≡ s.entries ++ es)
      × (t.tables ≡ s.tables ++ rs)
      × (t.source_records + length s.entries ≡ s.source_records + length t.entries)
      × IsImportOf inp rules tables ids es rs

  import_table-Adds :
      (tid : Text) (rule : Rule) (table : Table) (s t : Import)
      → lookup tid rules ≡ some rule
      → lookup tid tables ≡ some table
      → import_table inp tid rule table s ≡ ok t
      → Adds (tid ∷ []) s t
  unfolding import_table fresh_stats close_table
  import_table-Adds tid rule table s t ruled found h =
      let (parse, profiled, h1) =
        >>=-eq-ok (require (lookup rule.profile inp.profiles) key_error) _ h in
      let (_, _, h2) = >>=-eq-ok (check_leftover inp rule table) _ h1 in
      let start : Progress = record {
        entries = s.entries;
        seen = s.seen;
        stats = fresh_stats (length (parse table));
      } in
      let (p, loop, eq) =
        >>=-eq-ok (fold_result (import_record inp tid rule table) (parse table) start) _ h2 in
      let (counted, grown, rows) =
        import_records-counted inp tid rule table (parse table) start p loop in
      let (es, added, sourced) =
        import_records-AreEntriesOf inp tid rule table (parse table) start p loop in
      subst (Adds (tid ∷ []) s) (ok-injective _ t eq) (
        es ++ [],
        record { table = label table; id = tid; profile = rule.profile; stats = p.stats } ∷ [],
        added ∙ ap (λ l. s.entries ++ l) (sym (append-nil es)),
        refl,
        omega (arith, grown, rows),
        next_table es [] rule table parse ruled found
            (required_at (lookup rule.profile inp.profiles) key_error profiled) sourced refl rows
            (omega (arith, counted, rows)) no_table,
      )

  visit_table-Adds :
      (tid : Text) (s t : Import) → visit_table inp rules tables tid s ≡ ok t → Adds (tid ∷ []) s t
  unfolding visit_table
  visit_table-Adds tid s t h =
      let (rule, ruled, h1) = >>=-eq-ok (require (lookup tid rules) key_error) _ h in
      let (table, found, h2) = >>=-eq-ok (require (lookup tid tables) source_error) _ h1 in
      import_table-Adds tid rule table s t (required_at (lookup tid rules) key_error ruled)
        (required_at (lookup tid tables) source_error found) h2

  IsImportOf-append :
      {others : List Text} {more : List StateEntry} {later : List TableReport} {ids : List Text}
      {es : List StateEntry} {rs : List TableReport}
      → IsImportOf inp rules tables ids es rs
      → IsImportOf inp rules tables others more later
      → IsImportOf inp rules tables (ids ++ others) (es ++ more) (rs ++ later)
  IsImportOf-append no_table b = b
  IsImportOf-append {others} {more} {later}
        (next_table {tid} {ids} {r} {rs} es rest rule table parse p q o of i n c a) b =
      subst (λ l. IsImportOf inp rules tables (tid ∷ (ids ++ others)) l (r ∷ (rs ++ later)))
        (sym (append_assoc es rest more))
        (next_table {r = r} es (rest ++ more) rule table parse p q o of i n c
          (IsImportOf-append a b))

  import_tables-Adds :
      (ids : List Text) (s t : Import)
      → fold_result (visit_table inp rules tables) ids s ≡ ok t
      → Adds ids s t
  unfolding fold_result
  import_tables-Adds [] s t h =
      subst (Adds [] s) (ok-injective s t h)
        ([], [], sym (append-nil s.entries), sym (append-nil s.tables), refl, no_table)
  import_tables-Adds (tid ∷ ids) s t h =
      let (mid, first, rest) = >>=-eq-ok (visit_table inp rules tables tid s) _ h in
      let (es, rs, added, told, counted, here) = visit_table-Adds tid s mid first in
      let (more, later, grown, listed, summed, there) = import_tables-Adds ids mid t rest in
      (
        es ++ more,
        rs ++ later,
        grown ∙ (ap (λ l. l ++ more) added ∙ append_assoc s.entries es more),
        listed ∙ (ap (λ l. l ++ later) told ∙ append_assoc s.tables rs later),
        omega (arith, counted, summed),
        IsImportOf-append here there,
      )

-- An import of tables that returns has read every table it was given an id of, in their order: the entries
-- are one for each record that the profile of its rule finds in the table, in the order of the records, with
-- the record's provenance and the register's name, or as an exclusion with the name of the range where the
-- row is reserved. There is one report for each table, of as many rows as the table has records, and its
-- counters add up to these rows. As many source records are counted as there are entries.
pub import_tables-IsBalanced :
    (inp : Inputs) (rules : Dict Rule) (tables : Dict Table) (ids : List Text) (t : Import)
    → import_tables inp rules tables ids nothing_imported ≡ ok t
    → IsImportOf inp rules tables ids t.entries t.tables × (t.source_records ≡ length t.entries)
unfolding import_tables
import_tables-IsBalanced inp rules tables ids t h =
    let (es, rs, added, told, counted, sourced) =
      import_tables-Adds inp rules tables ids nothing_imported t h in
    (
      subst₂ (IsImportOf inp rules tables ids) (sym added) (sym told) sourced,
      omega (arith, counted),
    )
