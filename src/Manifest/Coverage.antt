-- ===== src/Manifest/Coverage.antt =====
-- `coverage` of tools/state/generate.py and the exit status of tools/state_gen.py.
pub mod Counted
pub mod Accounted
use libhw.Base.{
  Bool, Dict, List, Option, Text, [], codes, count, if◌then◌else◌, insert, keep, length, lookup,
  map, none, not, or_else, some, strip, text_eq, ℕ, ◌&&◌, ◌+◌, ◌||◌, ◌∷◌,
}
use libhw.Model.Entry.{ManifestEntry, Provenance}
use libhw.Sources.Lock.{is_empty}

pub record Manifest : Type 0 where
  pub architecture : Text
  pub document : Text
  pub revision : Text
  pub entries : List ManifestEntry

unfoldable pub get_or_0 : Option ℕ → ℕ
get_or_0 none = 0
get_or_0 (some n) = n

-- `d[k] = d.get(k, 0) + 1`
unfoldable pub bump_key : Text → Dict ℕ → Dict ℕ
unfolding lookup insert get_or_0
bump_key k d = insert k (get_or_0 (lookup k d) + 1) d

-- `for e in entries: d[key(e)] = d.get(key(e), 0) + 1`
unfoldable pub count_keys : (ManifestEntry → Text) → List ManifestEntry → Dict ℕ → Dict ℕ
unfolding bump_key
count_keys key [] d = d
count_keys key (e ∷ es) d = count_keys key es (bump_key (key e) d)

-- `e.get("derivation") or "table"`
unfoldable pub derivation_key : ManifestEntry → Text
unfolding or_else
derivation_key e = or_else (some e.derivation) (codes "table")

-- `not e.get("classification")`
unfoldable pub is_unclassified : ManifestEntry → Bool
unfolding is_empty
is_unclassified e = is_empty e.classification

-- The classification is one that needs a reason, and the reason has nothing but blanks.
unfoldable pub lacks_reason : ManifestEntry → Bool
unfolding text_eq strip or_else is_empty
lacks_reason e =
    (text_eq e.classification (codes "explicit_exclusion")
      || text_eq e.classification (codes "non_state_operation"))
    && is_empty (strip (or_else e.reason []))

-- One item of the report's `entries`.
pub record CoverageEntry : Type 0 where
  pub id : Text
  pub name : Text
  pub namespace : Text
  pub classification : Text
  pub encoding : Option Text
  pub reason : Option Text
  pub feature_requirement : Option Text
  pub provenance : Provenance

unfoldable pub coverage_entry : ManifestEntry → CoverageEntry
coverage_entry e = record {
  id = e.id;
  name = e.canonical_name;
  namespace = e.namespace;
  classification = e.classification;
  encoding = e.encoding;
  reason = e.reason;
  feature_requirement = e.feature_requirement;
  provenance = e.provenance;
}

-- The summary of the prose scan, which is read from another artifact, is in Prose.Summary.
pub record Coverage : Type 0 where
  pub architecture : Text
  pub total_entries : ℕ
  pub counts : Dict ℕ
  pub by_derivation : Dict ℕ
  pub unclassified : List Text
  pub exclusions_without_reason : List Text
  pub snapshot_state : ℕ
  pub entries : List CoverageEntry

unfoldable pub coverage : Manifest → Coverage
unfolding count_keys derivation_key is_unclassified lacks_reason coverage_entry
coverage doc = record {
  architecture = doc.architecture;
  total_entries = length doc.entries;
  counts = count_keys (λ e. e.classification) doc.entries [];
  by_derivation = count_keys derivation_key doc.entries [];
  unclassified = map (λ e. e.canonical_name) (keep is_unclassified doc.entries);
  exclusions_without_reason = map (λ e. e.canonical_name) (keep lacks_reason doc.entries);
  snapshot_state = count (λ e. e.snapshot) doc.entries;
  entries = map coverage_entry doc.entries;
}

-- `if cov["unclassified"] or cov["exclusions_without_reason"]: rc = 1`
unfoldable pub is_failing : Coverage → Bool
unfolding is_empty
is_failing c = not (is_empty c.unclassified) || not (is_empty c.exclusions_without_reason)

-- The status that `main` returns after the manifests of all targets.
unfoldable pub generate_status : List Manifest → ℕ → ℕ
unfolding coverage is_failing
generate_status [] rc = rc
generate_status (doc ∷ docs) rc = generate_status docs (if is_failing (coverage doc) then 1 else rc)

-- `c.get(key, 0)`
unfoldable pub reported : Text → Dict ℕ → ℕ
unfolding lookup get_or_0
reported k d = get_or_0 (lookup k d)
