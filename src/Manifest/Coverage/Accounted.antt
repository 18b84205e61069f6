-- ===== src/Manifest/Coverage/Accounted.antt =====
-- When tools/state_gen.py fails, and what its report says of a manifest that an import wrote.
use libhw.Base.{
  All, All-mono, All-zip, Bool, Bool-cases, List, Text, [], arith, codes, false, inl, inr, keep,
  map, or_else, refl, strip, text_eq, text_eq_iff, true, ◌&&◌, ◌||◌, ◌↔◌, ◌∷◌, ◌≡◌, ◌≢◌, ◌⊎◌,
}
use libhw.Manifest.Coverage.{
  Manifest, coverage, generate_status, is_failing, is_unclassified, lacks_reason,
}
use libhw.Model.Entry.{ManifestEntry}
use libhw.Sources.Lock.{is_empty}

-- The entry has a classification, and if it is an exclusion or an operation, a reason with something
-- other than blanks.
abbrev pub IsAccounted : ManifestEntry → Type 0
IsAccounted e =
    (e.classification ≢ [])
    × (((e.classification ≢ codes "explicit_exclusion")
          × (e.classification ≢ codes "non_state_operation"))
        ⊎ (strip (or_else e.reason []) ≢ []))

is_empty-false : (t : Text) → (is_empty t ≡ false) ↔ (t ≢ [])
unfolding is_empty
is_empty-false [] = (λ h. absurd (cc h), λ f. absurd (f refl))
is_empty-false (c ∷ t) = (λ _ e. cc e, λ _. refl)

text_eq-false : (s t : Text) → (text_eq s t ≡ false) ↔ (s ≢ t)
text_eq-false s t = (
  λ h e. cc (h, (text_eq_iff s t).1 e),
  λ f. elim (Bool-cases (text_eq s t)) [ inl e ↦ absurd (f ((text_eq_iff s t).0 e)) | inr e ↦ e ],
)

neither : (a b c : Bool) → (((a || b) && c) ≡ false) ↔ (((a ≡ false) × (b ≡ false)) ⊎ (c ≡ false))
neither a b c = (λ h. ground arith, λ h. ground arith)

lacks_reason-false :
    (e : ManifestEntry)
    → (lacks_reason e ≡ false) ↔ (
        ((e.classification ≢ codes "explicit_exclusion")
          × (e.classification ≢ codes "non_state_operation"))
        ⊎ (strip (or_else e.reason []) ≢ []))
unfolding lacks_reason
lacks_reason-false e =
    let (to, from) =
      neither (text_eq e.classification (codes "explicit_exclusion"))
        (text_eq e.classification (codes "non_state_operation"))
        (is_empty (strip (or_else e.reason []))) in
    let (ex_to, ex_from) = text_eq-false e.classification (codes "explicit_exclusion") in
    let (op_to, op_from) = text_eq-false e.classification (codes "non_state_operation") in
    let (why_to, why_from) = is_empty-false (strip (or_else e.reason [])) in
    (
      λ h. elim (to h) [ inl x ↦ inl (ex_to x.0, op_to x.1) | inr x ↦ inr (why_to x) ],
      λ h. from (elim h [ inl x ↦ inl (ex_from x.0, op_from x.1) | inr x ↦ inr (why_from x) ]),
    )

IsAccounted-iff :
    (e : ManifestEntry) → ((is_unclassified e ≡ false) × (lacks_reason e ≡ false)) ↔ IsAccounted e
unfolding is_unclassified
IsAccounted-iff e =
    let (class_to, class_from) = is_empty-false e.classification in
    let (why_to, why_from) = lacks_reason-false e in
    (λ h. (class_to h.0, why_to h.1), λ h. (class_from h.0, why_from h.1))

map-is_empty {ℓ κ} :
    {A : Type ℓ} {B : Type κ} (f : A → B) (xs : List A) → is_empty (map f xs) ≡ is_empty xs
unfolding is_empty
map-is_empty f [] = refl
map-is_empty f (x ∷ xs) = refl

pub keep-is_empty {ℓ} :
    {A : Type ℓ} (p : A → Bool) (xs : List A)
    → (is_empty (keep p xs) ≡ true) ↔ All (λ x. p x ≡ false) xs
unfolding is_empty
keep-is_empty p [] = (λ _. tt, λ _. refl)
keep-is_empty p (x ∷ xs) =
    let (to, from) = keep-is_empty p xs in
    elim (Bool-cases (p x)) [
      | inl e ↦ (λ h. absurd (cc (rw e at h)), λ h. absurd (cc (h.0, e)))
      | inr e ↦ (λ h. (e, to (rw e at h)), λ h. rw e (from h.1))
    ]

is_failing-coverage :
    (doc : Manifest) → (is_failing (coverage doc) ≡ false) ↔ All IsAccounted doc.entries
unfolding is_failing coverage
is_failing-coverage doc =
    let es = doc.entries in
    let (to_classed, from_classed) = keep-is_empty is_unclassified es in
    let (to_reasons, from_reasons) = keep-is_empty lacks_reason es in
    let accounts = All-mono (λ e. (IsAccounted-iff e).0) es in
    let explains = All-mono (λ e. (IsAccounted-iff e).1) es in
    let (zip, unzip) = All-zip (λ e. is_unclassified e ≡ false) (λ e. lacks_reason e ≡ false) es in
    rw
      (
        map-is_empty (λ (e : ManifestEntry). e.canonical_name) (keep is_unclassified es),
        map-is_empty (λ (e : ManifestEntry). e.canonical_name) (keep lacks_reason es),
      )
      (
        (λ h. accounts (zip (to_classed (ground arith), to_reasons (ground arith)))),
        (λ h.
            let parts = unzip (explains h) in rw (from_classed parts.0, from_reasons parts.1) refl),
      )

generate_status-one : (docs : List Manifest) → generate_status docs 1 ≡ 1
unfolding generate_status
generate_status-one [] = refl
generate_status-one (doc ∷ docs) = elim (Bool-cases (is_failing (coverage doc))) [
  | inl e ↦ rw e (generate_status-one docs)
  | inr e ↦ rw e (generate_status-one docs)
]

-- The generator returns 0 exactly when every entry of every manifest has a classification and, if that is
-- an exclusion or an operation, a reason with something other than blanks; and 1 otherwise.
pub generate_status_lem :
    (docs : List Manifest)
    → ((generate_status docs 0 ≡ 0) ↔ All (λ (doc : Manifest). All IsAccounted doc.entries) docs)
      × ((generate_status docs 0 ≡ 0) ⊎ (generate_status docs 0 ≡ 1))
unfolding generate_status
generate_status_lem [] = ((λ _. tt, λ _. refl), inl refl)
generate_status_lem (doc ∷ docs) =
    let (to, from) = is_failing-coverage doc in
    let ((to_rest, from_rest), ends) = generate_status_lem docs in
    elim (Bool-cases (is_failing (coverage doc))) [
      | inl e ↦
          rw (e, generate_status-one docs)
            ((λ h. absurd (omega arith), λ h. absurd (cc (from h.0, e))), inr refl)
      | inr e ↦ rw e ((λ h. (to e, to_rest h), λ h. from_rest h.1), ends)
    ]
