-- ===== src/Manifest/Diff/Keys.antt =====
-- What holds of the keys of an index, of sorted keys, and of the keys that a test keeps.
use libhw.Base.{
  All, Bool, Bool-cases, Dict, List, Text, [], arith, has_key, if◌then◌else◌, inl, inr, keep, keys,
  refl, subst, text_eq, text_eq_iff, text_eq_refl, text_lt, true, ◌↔◌, ◌∷◌, ◌≡◌,
}
use libhw.Importer.Target.{insert_sorted, sorted}
use libhw.Model.Entry.{ManifestEntry}
use libhw.Sources.Lock.{is_empty}

pub All-keys {κ} :
    (P : Text → Type κ) (d : Dict ManifestEntry)
    → All P (keys d) ↔ ((k : Text) → has_key k d ≡ true → P k)
unfolding has_key
All-keys P [] = (λ _ k h. absurd (cc h), λ _. tt)
All-keys P ((j, e) ∷ d) =
    let (to, from) = All-keys P d in
    (
      λ h k there. elim (Bool-cases (text_eq j k)) [
        | inl same ↦ subst P ((text_eq_iff j k).0 same) h.0
        | inr other ↦ to h.1 k (rw other at there)
      ],
      λ h. (h j (rw (text_eq_refl j) refl), from (λ k there. h k (later j k there))),
    )
  where
    later : (i k : Text) → has_key k d ≡ true → (if text_eq i k then true else has_key k d) ≡ true
    later i k there = ground arith

All-insert_sorted {κ} :
    (P : Text → Type κ) (x : Text) (xs : List Text) → All P (insert_sorted x xs) ↔ (P x × All P xs)
unfolding insert_sorted
All-insert_sorted P x [] = (λ h. h, λ h. h)
All-insert_sorted P x (y ∷ ys) =
    let (to, from) = All-insert_sorted P x ys in
    elim (Bool-cases (text_lt y x)) [
      | inl e ↦ rw e (λ h. ((to h.1).0, (h.0, (to h.1).1)), λ h. (h.1.0, from (h.0, h.1.1)))
      | inr e ↦ rw e (λ h. h, λ h. h)
    ]

pub All-sorted {κ} : (P : Text → Type κ) (xs : List Text) → All P (sorted xs) ↔ All P xs
unfolding sorted
All-sorted P [] = (λ h. h, λ h. h)
All-sorted P (x ∷ xs) =
    let (to, from) = All-sorted P xs in
    let (out, in_) = All-insert_sorted P x (sorted xs) in
    (λ h. ((out h).0, to (out h).1), λ h. in_ (h.0, from h.1))

pub All-keep {κ} :
    (P : Text → Type κ) (p : Text → Bool) (xs : List Text)
    → All P (keep p xs) ↔ All (λ x. p x ≡ true → P x) xs
All-keep P p [] = (λ h. h, λ h. h)
All-keep P p (x ∷ xs) =
    let (to, from) = All-keep P p xs in
    elim (Bool-cases (p x)) [
      | inl e ↦ rw e (λ h. (λ _. h.0, to h.1), λ h. (h.0 refl, from h.1))
      | inr e ↦ rw e (λ h. (λ f. absurd (cc f), to h), λ h. from h.1)
    ]

pub All-empty : (xs : List Text) → (is_empty xs ≡ true) ↔ All (λ _. ⊥) xs
unfolding is_empty
All-empty [] = (λ _. tt, λ _. refl)
All-empty (x ∷ xs) = (λ h. absurd (cc h), λ h. elim h.0 [ ])
