-- ===== src/Importer/Target/Entries.antt =====
-- What a finished import guarantees.
use libhw.Base.{
  >>=-eq-ok, All, Dict, List, Option, Text, false, length, member, ok, require, required_at, some,
  source_error, true, ◌++◌, ◌≡◌, ◌⊎◌,
}
use libhw.Importer.Report.{sum_counts}
use libhw.Importer.Rules.{Inputs, Rule, Rules}
use libhw.Importer.Tables.Balance.{IsImportOf}
use libhw.Importer.Target.{Document, ImportReport, Reviewed, import_document, import_target}
use libhw.Model.Entry.{StateEntry}
use libhw.Pdf.Table.{Table}
use libhw.Sources.{Machine, Source, verify}
use libhw.Sources.Lock.{Lock, get_source}
use libhw.Sources.Verify.{Matches, verify-iff-Matches}

-- An import that returns has read a document that the lock pins under the key that the rules name,
-- at a path where the file has the pinned digest and size.
pub import_target_verified :
    (m : Machine) (lock : Option Lock) (doc : Document) (r : Reviewed) (names : List Text)
    → (addrs : Dict Text) (result : List StateEntry × ImportReport)
    → import_target m lock doc r names addrs ≡ ok result
    → (rules : Rules) × (src : Source) × (path : Text) × (r.rules ≡ some rules)
      × (get_source rules.source lock ≡ ok src)
      × Matches m src path
      × (import_document doc r rules src names addrs path ≡ ok result)
unfolding import_target
import_target_verified m lock doc r names addrs result h =
    let (rules, given, h1) = >>=-eq-ok (require r.rules source_error) _ h in
    let (src, pinned, h2) = >>=-eq-ok (get_source rules.source lock) _ h1 in
    let (path, verified, h3) = >>=-eq-ok (verify m src) _ h2 in
    (
      rules,
      src,
      path,
      required_at r.rules source_error given,
      pinned,
      ((verify-iff-Matches m src path).0 verified).1,
      h3,
    )

-- The id of each rule that keeps its table is in the list.
abbrev IsRead : List Text → Text × Rule → Type 0
IsRead ids (tid, rule) = (rule.keep ≡ false) ⊎ (member tid ids ≡ true)

-- The report of an import accounts for every record and every entry: `ids` are the tables that were read.
abbrev pub IsAccounted : Inputs → Dict Rule → Dict Table → List StateEntry × ImportReport → Type 0
IsAccounted inp rules tables (entries, report) =
    (ids : List Text) × (es : List StateEntry) × (more : List StateEntry) × All (IsRead ids) rules
    × IsImportOf inp rules tables ids es report.tables
    × (entries ≡ es ++ more)
    × (report.source_records ≡ length es)
    × (sum_counts report.counts ≡ length entries)
