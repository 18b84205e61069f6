-- ===== src/Manifest/Diff.antt =====
-- tools/state_source_diff.py: what changed between two manifests.
pub mod Fields
pub mod Keys
pub mod Unchanged
use Prim.Native.String.{String}
use libhw.Base.{
  Bool, Dict, List, Option, Text, [], codes, false, has_key, if◌then◌else◌, insert, keep, keys,
  lookup, member, none, not, some, text_eq, true, ℕ, ◌&&◌, ◌++◌, ◌+◌, ◌==◌, ◌∷◌,
}
use libhw.Importer.Target.{sorted}
use libhw.Manifest.Generate.Print.{comma_join}
use libhw.Model.Entry.{ManifestEntry}
use libhw.Sources.Lock.{is_empty}

-- `{e["state_id"]: e for e in entries}`
unfoldable pub index : List ManifestEntry → Dict ManifestEntry → Dict ManifestEntry
unfolding insert
index [] d = d
index (e ∷ es) d = index es (insert e.id e d)

unfoldable pub same_text : Option Text → Option Text → Bool
unfolding text_eq
same_text none none = true
same_text (some a) (some b) = text_eq a b
same_text _ _ = false

unfoldable pub same_number : Option ℕ → Option ℕ → Bool
same_number none none = true
same_number (some a) (some b) = a == b
same_number _ _ = false

unfoldable pub same_flag : Bool → Bool → Bool
same_flag true b = b
same_flag false b = not b

-- The field's name, unless its values are equal.
unfoldable pub differs : String → Bool → List Text
differs field true = []
differs field false = codes field ∷ []

-- `[f for f in FIELDS if old[k].get(f) != new[k].get(f)]`
unfoldable pub diffs : ManifestEntry → ManifestEntry → List Text
unfolding differs same_text same_number same_flag text_eq
diffs a b =
    differs "encoding" (same_text a.encoding b.encoding)
    ++ (differs "width" (same_number a.width b.width)
        ++ (differs "namespace" (text_eq a.namespace b.namespace)
            ++ (differs "classification" (text_eq a.classification b.classification)
                ++ (differs "feature_requirement"
                      (same_text a.feature_requirement b.feature_requirement)
                    ++ (differs "readable" (same_flag a.readable b.readable)
                        ++ (differs "writable" (same_flag a.writable b.writable)
                            ++ differs "snapshot" (same_flag a.snapshot b.snapshot)))))))

pub record Changes : Type 0 where
  pub changed_encoding : List Text
  pub changed_feature : List Text
  pub changed_other : List Text
  pub unchanged : ℕ

-- `f"{value}"`
unfoldable pub show_value : Option Text → Text
show_value none = codes "None"
show_value (some t) = t

unfoldable pub arrow : Text → Option Text → Option Text → Text
unfolding show_value
arrow k a b = k ++ (codes ": " ++ (show_value a ++ (codes " -> " ++ show_value b)))

-- The loop body for an entry that both manifests have.
unfoldable pub compare_entry : Text → ManifestEntry → ManifestEntry → List Text → Changes → Changes
unfolding member arrow comma_join
compare_entry k a b [] c = record c { unchanged = c.unchanged + 1 }
compare_entry k a b (f ∷ fs) c =
    if member (codes "encoding") (f ∷ fs)
    then record c { changed_encoding = c.changed_encoding ++ (arrow k a.encoding b.encoding ∷ []) }
    else if member (codes "feature_requirement") (f ∷ fs)
    then record c {
      changed_feature =
          c.changed_feature ++ (arrow k a.feature_requirement b.feature_requirement ∷ []);
    }
    else record c {
      changed_other = c.changed_other ++ ((k ++ (codes ": " ++ comma_join (f ∷ fs))) ∷ []);
    }

unfoldable pub compare_at : Text → Option ManifestEntry → Option ManifestEntry → Changes → Changes
unfolding compare_entry diffs
compare_at k (some a) (some b) c = compare_entry k a b (diffs a b) c
compare_at k _ _ c = c

unfoldable pub compare_keys :
    Dict ManifestEntry → Dict ManifestEntry → List Text → Changes → Changes
unfolding compare_at lookup
compare_keys old new [] c = c
compare_keys old new (k ∷ ks) c =
    compare_keys old new ks (compare_at k (lookup k old) (lookup k new) c)

-- `sorted(set(d) - set(e))`
unfoldable pub missing_from : Dict ManifestEntry → Dict ManifestEntry → List Text
unfolding has_key sorted
missing_from d e = sorted (keep (λ k. not (has_key k e)) (keys d))

-- `sorted(set(old) & set(new))`
unfoldable pub common_keys : Dict ManifestEntry → Dict ManifestEntry → List Text
unfolding has_key sorted
common_keys old new = sorted (keep (λ k. has_key k new) (keys old))

unfoldable pub no_changes : Changes
no_changes = record {
  changed_encoding = [];
  changed_feature = [];
  changed_other = [];
  unchanged = 0;
}

unfoldable pub is_clean : Changes → Bool
unfolding is_empty
is_clean c = is_empty c.changed_encoding && is_empty c.changed_feature && is_empty c.changed_other

-- The status that `main` returns for two indexes.
unfoldable pub diff_status : Dict ManifestEntry → Dict ManifestEntry → ℕ
unfolding missing_from is_empty compare_keys common_keys no_changes is_clean
diff_status old new =
    if is_empty (missing_from new old)
      && is_empty (missing_from old new)
      && is_clean (compare_keys old new (common_keys old new) no_changes)
    then 0
    else 1
