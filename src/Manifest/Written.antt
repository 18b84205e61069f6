-- ===== src/Manifest/Written.antt =====
-- `write_manifest` of tools/state/importer.py, and what coverage reports of a manifest that it wrote.
use libhw.Base.{
  List, [], arith, count, false, keep, length, length-map, map, refl, text_eq, ◌∙◌, ◌∷◌, ◌≡◌,
}
use libhw.Importer.Target.{ImportReport}
use libhw.Manifest.Coverage.{Manifest, coverage, is_unclassified, reported}
use libhw.Manifest.Coverage.Counted.{reported-coverage}
use libhw.Model.Entry.{ManifestEntry, StateEntry, to_dict}
use libhw.Model.Kinds.{Classification, classification_value, same_class}
use libhw.Sources.Lock.{is_empty}

unfoldable pub write_manifest : List StateEntry → ImportReport → Manifest
unfolding to_dict
write_manifest entries report = record {
  architecture = report.architecture;
  document = report.document;
  revision = report.revision;
  entries = map to_dict entries;
}

text_eq-classification_value :
    (a b : Classification)
    → text_eq (classification_value a) (classification_value b) ≡ same_class a b
unfolding text_eq classification_value same_class
text_eq-classification_value a b = ground arith

is_empty-classification_value : (c : Classification) → is_empty (classification_value c) ≡ false
unfolding is_empty classification_value
is_empty-classification_value c = ground arith

count-to_dict :
    (c : Classification) (es : List StateEntry)
    → count
        (λ (e : ManifestEntry). text_eq e.classification (classification_value c))
        (map to_dict es)
      ≡ count (λ (e : StateEntry). same_class e.classification c) es
unfolding to_dict
count-to_dict c [] = refl
count-to_dict c (e ∷ es) =
    rw (count-to_dict c es, text_eq-classification_value e.classification c) refl

classified : (es : List StateEntry) → keep is_unclassified (map to_dict es) ≡ []
unfolding to_dict is_unclassified
classified [] = refl
classified (e ∷ es) = rw (is_empty-classification_value e.classification) (classified es)

-- The coverage report of a manifest that an import wrote counts, under the value of each
-- classification, the entries that the import classified so, and leaves no entry unclassified.
pub coverage-write_manifest :
    (entries : List StateEntry) (report : ImportReport) (c : Classification)
    → let cov = coverage (write_manifest entries report) in
      (reported (classification_value c) cov.counts
        ≡ count (λ (e : StateEntry). same_class e.classification c) entries)
      × (cov.total_entries ≡ length entries)
      × (cov.unclassified ≡ [])
unfolding coverage write_manifest
coverage-write_manifest entries report c = (
  (reported-coverage (write_manifest entries report) (classification_value c)).0
      ∙ count-to_dict c entries,
  length-map entries to_dict,
  rw (classified entries) refl,
)
