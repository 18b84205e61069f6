-- ===== src/Manifest/Diff/Fields.antt =====
-- When tools/state_source_diff.py finds no difference between two entries.
use Prim.Native.String.{String}
use libhw.Base.{
  ==_iff, Bool, List, Option, Text, [], ap, false, none, refl, some, some-injective, text_eq_iff,
  true, ℕ, ◌++◌, ◌↔◌, ◌≡◌,
}
use libhw.Manifest.Diff.{differs, diffs, same_flag, same_number, same_text}
use libhw.Model.Entry.{ManifestEntry}

-- The eight fields of `FIELDS` are equal.
abbrev pub HaveEqualFields : ManifestEntry → ManifestEntry → Type 0
HaveEqualFields a b =
    (a.encoding ≡ b.encoding)
    × (a.width ≡ b.width)
    × (a.namespace ≡ b.namespace)
    × (a.classification ≡ b.classification)
    × (a.feature_requirement ≡ b.feature_requirement)
    × (a.readable ≡ b.readable)
    × (a.writable ≡ b.writable)
    × (a.snapshot ≡ b.snapshot)

same_text_iff : (a b : Option Text) → (same_text a b ≡ true) ↔ (a ≡ b)
unfolding same_text
same_text_iff none none = (λ _. refl, λ _. refl)
same_text_iff none (some b) = (λ h. cc, λ h. cc)
same_text_iff (some a) none = (λ h. cc, λ h. cc)
same_text_iff (some a) (some b) =
    (λ h. ap some ((text_eq_iff a b).0 h), λ h. (text_eq_iff a b).1 (some-injective a b h))

same_number_iff : (a b : Option ℕ) → (same_number a b ≡ true) ↔ (a ≡ b)
unfolding same_number
same_number_iff none none = (λ _. refl, λ _. refl)
same_number_iff none (some b) = (λ h. cc, λ h. cc)
same_number_iff (some a) none = (λ h. cc, λ h. cc)
same_number_iff (some a) (some b) =
    (λ h. ap some ((==_iff a b).0 h), λ h. (==_iff a b).1 (some-injective a b h))

same_flag_iff : (a b : Bool) → (same_flag a b ≡ true) ↔ (a ≡ b)
unfolding same_flag
same_flag_iff true true = (λ _. refl, λ _. refl)
same_flag_iff true false = (λ h. cc, λ h. cc)
same_flag_iff false true = (λ h. cc, λ h. cc)
same_flag_iff false false = (λ _. refl, λ _. refl)

differs-nil :
    (field : String) (b : Bool) (rest : List Text)
    → (differs field b ++ rest ≡ []) ↔ ((b ≡ true) × (rest ≡ []))
unfolding differs
differs-nil field true rest = (λ h. (refl, h), λ h. h.1)
differs-nil field false rest = (λ h. absurd (cc h), λ h. absurd (cc h.0))

-- One field more: no difference in it and in those after it.
field_equal :
    {A B : Type 0} (field : String) (b : Bool) (rest : List Text)
    → ((b ≡ true) ↔ A)
    → ((rest ≡ []) ↔ B)
    → (differs field b ++ rest ≡ []) ↔ (A × B)
field_equal field b rest here later =
    let (to, from) = differs-nil field b rest in
    (λ h. (here.0 (to h).0, later.0 (to h).1), λ h. from (here.1 h.0, later.1 h.1))

last_field :
    {A : Type 0} (field : String) (b : Bool) → ((b ≡ true) ↔ A) → (differs field b ≡ []) ↔ A
unfolding differs
last_field field true here = (λ _. here.0 refl, λ _. refl)
last_field field false here = (λ h. absurd (cc h), λ h. absurd (cc (here.1 h)))

pub diffs-nil : (a b : ManifestEntry) → (diffs a b ≡ []) ↔ HaveEqualFields a b
unfolding diffs
diffs-nil a b =
    let (to, from) = field_equal "encoding" _ _ (same_text_iff a.encoding b.encoding) (
      field_equal "width" _ _ (same_number_iff a.width b.width) (
        field_equal "namespace" _ _ (text_eq_iff a.namespace b.namespace) (
          field_equal "classification" _ _ (text_eq_iff a.classification b.classification) (
            field_equal "feature_requirement" _ _
              (same_text_iff a.feature_requirement b.feature_requirement)
              (field_equal "readable" _ _ (same_flag_iff a.readable b.readable) (
                field_equal "writable" _ _ (same_flag_iff a.writable b.writable)
                  (last_field "snapshot" _ (same_flag_iff a.snapshot b.snapshot)))))))) in
    (
      λ h. let (e, (w, (n, (c, (f, (r, (x, s))))))) = to h in (e, w, n, c, f, r, x, s),
      λ (e, w, n, c, f, r, x, s). from (e, (w, (n, (c, (f, (r, (x, s))))))),
    )
