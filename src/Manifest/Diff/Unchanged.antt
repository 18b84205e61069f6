-- ===== src/Manifest/Diff/Unchanged.antt =====
-- When tools/state_source_diff.py returns 0.
use libhw.Base.{
  All, Bool, Bool-cases, Dict, List, Option, Text, [], arith, codes, false, has_key, has_key-lookup,
  if◌then◌else◌, inl, inr, keep, keys, lookup, lookup-has_key, none, not, refl, some, true, ℕ, ◌&&◌,
  ◌++◌, ◌↔◌, ◌∷◌, ◌≡◌, ◌⊎◌,
}
use libhw.Importer.Target.{sorted}
use libhw.Manifest.Diff.{
  Changes, arrow, common_keys, compare_at, compare_entry, compare_keys, diff_status, diffs, index,
  is_clean, missing_from, no_changes,
}
use libhw.Manifest.Diff.Fields.{HaveEqualFields, diffs-nil}
use libhw.Manifest.Diff.Keys.{All-empty, All-keep, All-keys, All-sorted}
use libhw.Manifest.Generate.Print.{comma_join}
use libhw.Model.Entry.{ManifestEntry}
use libhw.Sources.Lock.{is_empty}

-- Both manifests have the entry with these eight fields equal, or neither has it.
abbrev pub SameAt : Option ManifestEntry → Option ManifestEntry → Type 0
SameAt none none = Unit
SameAt (some a) (some b) = HaveEqualFields a b
SameAt _ _ = ⊥

-- No difference at a key that both have.
abbrev Quiet : Option ManifestEntry → Option ManifestEntry → Type 0
Quiet (some a) (some b) = diffs a b ≡ []
Quiet _ _ = Unit

is_empty-snoc : (xs : List Text) (x : Text) → is_empty (xs ++ (x ∷ [])) ≡ false
unfolding is_empty
is_empty-snoc [] x = refl
is_empty-snoc (y ∷ xs) x = refl

compare_entry-dirty :
    (k : Text) (a b : ManifestEntry) (f : Text) (fs : List Text) (c : Changes)
    → is_clean (compare_entry k a b (f ∷ fs) c) ≡ false
unfolding compare_entry is_clean
compare_entry-dirty k a b f fs c = ground (
  arith,
  is_empty-snoc c.changed_encoding (arrow k a.encoding b.encoding),
  is_empty-snoc c.changed_feature (arrow k a.feature_requirement b.feature_requirement),
  is_empty-snoc c.changed_other (k ++ (codes ": " ++ comma_join (f ∷ fs))),
)

compare_entry-clean :
    (k : Text) (a b : ManifestEntry) (ds : List Text) (c : Changes)
    → (is_clean (compare_entry k a b ds c) ≡ true) ↔ ((is_clean c ≡ true) × (ds ≡ []))
unfolding is_clean compare_entry
compare_entry-clean k a b [] c = (λ h. (h, refl), λ h. h.0)
compare_entry-clean k a b (f ∷ fs) c =
    (λ h. absurd (cc (compare_entry-dirty k a b f fs c, h)), λ h. absurd (cc h.1))

compare_at-clean :
    (k : Text) (oa ob : Option ManifestEntry) (c : Changes)
    → (is_clean (compare_at k oa ob c) ≡ true) ↔ ((is_clean c ≡ true) × Quiet oa ob)
unfolding compare_at
compare_at-clean k none ob c = (λ h. (h, tt), λ h. h.0)
compare_at-clean k (some a) none c = (λ h. (h, tt), λ h. h.0)
compare_at-clean k (some a) (some b) c = compare_entry-clean k a b (diffs a b) c

compare_keys-clean :
    (old new : Dict ManifestEntry) (ks : List Text) (c : Changes)
    → (is_clean (compare_keys old new ks c) ≡ true)
      ↔ ((is_clean c ≡ true) × All (λ k. Quiet (lookup k old) (lookup k new)) ks)
unfolding compare_keys
compare_keys-clean old new [] c = (λ h. (h, tt), λ h. h.0)
compare_keys-clean old new (k ∷ ks) c =
    let (to, from) = compare_keys-clean old new ks (compare_at k (lookup k old) (lookup k new) c) in
    let (here, back) = compare_at-clean k (lookup k old) (lookup k new) c in
    (λ h. ((here (to h).0).0, ((here (to h).0).1, (to h).1)), λ h. from (back (h.0, h.1.0), h.1.1))

not-true : (b : Bool) → not b ≡ true → b ≡ false
not-true true h = cc
not-true false h = refl

present : (b : Bool) → (not b ≡ true → ⊥) → b ≡ true
present true h = refl
present false h = absurd (h refl)

missing_from-nil :
    (d e : Dict ManifestEntry)
    → (is_empty (missing_from d e) ≡ true) ↔ ((k : Text) → has_key k d ≡ true → has_key k e ≡ true)
unfolding missing_from
missing_from-nil d e =
    let absent : Text → Bool = λ k. not (has_key k e) in
    let (empty_to, empty_from) = All-empty (sorted (keep absent (keys d))) in
    let (sort_to, sort_from) = All-sorted (λ _. ⊥) (keep absent (keys d)) in
    let (keep_to, keep_from) = All-keep (λ _. ⊥) absent (keys d) in
    let (keys_to, keys_from) = All-keys (λ k. absent k ≡ true → ⊥) d in
    (
      λ h k there. present (has_key k e) (keys_to (keep_to (sort_to (empty_to h))) k there),
      λ h. empty_from (
          sort_from
            (keep_from (keys_from λ k there gone. cc (h k there, not-true (has_key k e) gone)))),
    )

common_keys-Quiet :
    (old new : Dict ManifestEntry)
    → All (λ k. Quiet (lookup k old) (lookup k new)) (common_keys old new) ↔ (
        (k : Text)
        → has_key k old ≡ true
        → has_key k new ≡ true
        → Quiet (lookup k old) (lookup k new))
unfolding common_keys
common_keys-Quiet old new =
    let P : Text → Type 0 = λ k. Quiet (lookup k old) (lookup k new) in
    let shared : Text → Bool = λ k. has_key k new in
    let (sort_to, sort_from) = All-sorted P (keep shared (keys old)) in
    let (keep_to, keep_from) = All-keep P shared (keys old) in
    let (keys_to, keys_from) = All-keys (λ k. shared k ≡ true → P k) old in
    (λ h. keys_to (keep_to (sort_to h)), λ h. sort_from (keep_from (keys_from h)))

has_key-some :
    {V : Type 0} (k : Text) (d : Dict V) (v : V) → lookup k d ≡ some v → has_key k d ≡ true
has_key-some k d v h = elim (Bool-cases (has_key k d)) [
  | inl e ↦ e
  | inr e ↦ absurd (cc (lookup-has_key k d e, h))
]

-- The keys that both have agree, and neither has a key that the other lacks.
abbrev Agree : Dict ManifestEntry → Dict ManifestEntry → Type 0
Agree old new =
    ((k : Text) → has_key k new ≡ true → has_key k old ≡ true)
    × ((k : Text) → has_key k old ≡ true → has_key k new ≡ true)
    × ((k : Text)
        → has_key k old ≡ true
        → has_key k new ≡ true
        → Quiet (lookup k old) (lookup k new))

same_at :
    (k : Text) (old new : Dict ManifestEntry) (oa ob : Option ManifestEntry)
    → lookup k old ≡ oa
    → lookup k new ≡ ob
    → (has_key k new ≡ true → has_key k old ≡ true)
    → (has_key k old ≡ true → has_key k new ≡ true)
    → (has_key k old ≡ true → has_key k new ≡ true → Quiet oa ob)
    → SameAt oa ob
same_at k old new none none ea eb f g q = tt
same_at k old new none (some b) ea eb f g q =
    absurd (cc (f (has_key-some k new b eb), has_key-lookup k old ea))
same_at k old new (some a) none ea eb f g q =
    absurd (cc (g (has_key-some k old a ea), has_key-lookup k new eb))
same_at k old new (some a) (some b) ea eb f g q =
    (diffs-nil a b).0 (q (has_key-some k old a ea) (has_key-some k new b eb))

has_old :
    (k : Text) (old new : Dict ManifestEntry) (oa ob : Option ManifestEntry)
    → lookup k old ≡ oa
    → lookup k new ≡ ob
    → SameAt oa ob
    → (has_key k new ≡ true → has_key k old ≡ true)
      × (has_key k old ≡ true → has_key k new ≡ true)
      × Quiet oa ob
has_old k old new none none ea eb s = (
  λ h. absurd (cc (has_key-lookup k new eb, h)),
  λ h. absurd (cc (has_key-lookup k old ea, h)),
  tt,
)
has_old k old new none (some b) ea eb s = elim s [ ]
has_old k old new (some a) none ea eb s = elim s [ ]
has_old k old new (some a) (some b) ea eb s =
    (λ _. has_key-some k old a ea, λ _. has_key-some k new b eb, (diffs-nil a b).1 s)

Agree-iff :
    (old new : Dict ManifestEntry)
    → Agree old new ↔ ((k : Text) → SameAt (lookup k old) (lookup k new))
Agree-iff old new = (
  λ (f, g, q) k. same_at k old new (lookup k old) (lookup k new) refl refl (f k) (g k) (q k),
  λ s.
      let at = λ (k : Text). has_old k old new (lookup k old) (lookup k new) refl refl (s k) in
      (λ k. (at k).0, λ k. (at k).1, λ k _ _. (at k).2),
)

abbrev status : Bool → ℕ
status b = if b then 0 else 1

status_zero : (a b c : Bool) → (status (a && b && c) ≡ 0) ↔ ((a ≡ true) × (b ≡ true) × (c ≡ true))
status_zero true true true = (λ _. (refl, refl, refl), λ _. refl)
status_zero true true false = (λ h. absurd (omega arith), λ h. absurd (cc h.2))
status_zero true false c = (λ h. absurd (omega arith), λ h. absurd (cc h.1))
status_zero false b c = (λ h. absurd (omega arith), λ h. absurd (cc h.0))

diff_status-Agree : (old new : Dict ManifestEntry) → (diff_status old new ≡ 0) ↔ Agree old new
unfolding diff_status
diff_status-Agree old new =
    let (zero_to, zero_from) =
      status_zero (is_empty (missing_from new old)) (is_empty (missing_from old new))
        (is_clean (compare_keys old new (common_keys old new) no_changes)) in
    let (added_to, added_from) = missing_from-nil new old in
    let (removed_to, removed_from) = missing_from-nil old new in
    let (clean_to, clean_from) = compare_keys-clean old new (common_keys old new) no_changes in
    let (quiet_to, quiet_from) = common_keys-Quiet old new in
    (
      λ h. (added_to (zero_to h).0, removed_to (zero_to h).1, quiet_to (clean_to (zero_to h).2).1),
      λ h. zero_from (
        added_from h.0,
        removed_from h.1,
        clean_from (unfold is_clean no_changes is_empty in refl, quiet_from h.2),
      ),
    )

ends : (b : Bool) → (status b ≡ 0) ⊎ (status b ≡ 1)
ends true = inl refl
ends false = inr refl

-- The comparison of two manifests returns 0 exactly when both have the same identifiers and, at each, the
-- same encoding, width, namespace, class, required feature, readable, writable and snapshot flag, the later
-- entry counting where an identifier is there twice; and 1 otherwise. Other fields may differ.
pub diff_status_lem :
    (old new : List ManifestEntry)
    → let before = index old [] in
      let after = index new [] in
      ((diff_status before after ≡ 0) ↔ ((k : Text) → SameAt (lookup k before) (lookup k after)))
      × ((diff_status before after ≡ 0) ⊎ (diff_status before after ≡ 1))
diff_status_lem old new =
    let before = index old [] in
    let after = index new [] in
    let (to, from) = diff_status-Agree before after in
    let (same_to, same_from) = Agree-iff before after in
    ((λ h. same_to (to h), λ h. from (same_from h)), unfold diff_status in ends _)
