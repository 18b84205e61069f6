-- ===== src/Manifest/Coverage/Counted.antt =====
-- What a coverage report counts.
use libhw.Base.{
  Dict, List, Text, [], arith, count, if◌then◌else◌, lookup, lookup-insert, text_eq, text_eq_iff, ℕ,
  ◌+◌, ◌∙◌, ◌∷◌, ◌≡◌,
}
use libhw.Manifest.Coverage.{
  Manifest, bump_key, count_keys, coverage, derivation_key, get_or_0, reported,
}
use libhw.Model.Entry.{ManifestEntry}

reported-bump_key :
    (j k : Text) (d : Dict ℕ)
    → reported k (bump_key j d) ≡ reported k d + (if text_eq j k then 1 else 0)
unfolding reported bump_key
reported-bump_key j k d =
    ground (arith, lookup-insert j k (get_or_0 (lookup j d) + 1) d, text_eq_iff j k)

-- The counter of a key goes up by one for each entry that has the key, and by nothing else.
reported-count_keys :
    (key : ManifestEntry → Text) (es : List ManifestEntry) (d : Dict ℕ) (k : Text)
    → reported k (count_keys key es d) ≡ reported k d + count (λ e. text_eq (key e) k) es
unfolding count_keys
reported-count_keys key [] d k = omega arith
reported-count_keys key (e ∷ es) d k =
    omega (arith, reported-count_keys key es (bump_key (key e) d) k, reported-bump_key (key e) k d)

-- Each count of a coverage report is the number of the manifest's entries with that classification,
-- and so for the derivations.
pub reported-coverage :
    (doc : Manifest) (k : Text)
    → (reported k (coverage doc).counts ≡ count (λ e. text_eq e.classification k) doc.entries)
      × (reported k (coverage doc).by_derivation
          ≡ count (λ e. text_eq (derivation_key e) k) doc.entries)
unfolding coverage
reported-coverage doc k = (
  reported-count_keys (λ e. e.classification) doc.entries [] k ∙ (unfold reported in omega arith),
  reported-count_keys derivation_key doc.entries [] k ∙ (unfold reported in omega arith),
)
