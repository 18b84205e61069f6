-- ===== src/Prose/Summary.antt =====
-- `_prose_summary` of tools/state/generate.py: what the coverage report says of the artifact that the
-- review of the candidates writes.
use libhw.Base.{
  Bool, Bool-cases, Dict, List, Option-cases, Text, [], any, arith, count, false, if◌then◌else◌,
  inl, inr, keep, length, length-map, map, member, none, not, not-false, or_else, refl, some,
  some-injective, sym, text_eq, true, truthy, ℕ, ◌&&◌, ◌↔◌, ◌∷◌, ◌≡◌,
}
use libhw.Importer.Target.{sorted}
use libhw.Prose.Candidates.{
  CandidateRow, Reviews, classified, fail_if, finish, has_no_class, is_invalid, is_range_kind,
  refused, run_candidates,
}
use libhw.Prose.Candidates.Loop.{has_invalid, lacks_class, run_candidates-cases}
use libhw.Prose.Classify.{Vocabulary, valid}
use libhw.Prose.Scan.{ProseCandidate, as_set}
use libhw.Sources.Lock.{is_empty}

pub record ProseSummary : Type 0 where
  pub total : ℕ
  pub unclassified : ℕ
  pub unresolved_ranges : ℕ
  pub by_class : Dict ℕ

unfoldable pub row_lacks_class : CandidateRow → Bool
unfolding truthy
row_lacks_class r = not (truthy r.classification)

unfoldable pub row_classes : List CandidateRow → List Text
unfolding truthy or_else
row_classes [] = []
row_classes (r ∷ rs) =
    let later = row_classes rs in
    if truthy r.classification then or_else r.classification [] ∷ later else later

-- `r.get("classification") == c`
unfoldable pub row_has_class : Text → CandidateRow → Bool
unfolding text_eq
row_has_class c r = elim r.classification [ none ↦ false | some class ↦ text_eq class c ]

unfoldable pub prose_summary : List CandidateRow → ProseSummary
unfolding row_lacks_class row_classes row_has_class sorted as_set is_range_kind
prose_summary rows = record {
  total = length rows;
  unclassified = count row_lacks_class rows;
  unresolved_ranges = count (λ r. is_range_kind r.kind && row_lacks_class r) rows;
  by_class = map (λ c. (c, count (row_has_class c) rows)) (sorted (as_set (row_classes rows)));
}

valid-truthy : (class : Text) → member class valid ≡ true → truthy (some class) ≡ true
unfolding member truthy text_eq
valid-truthy [] h = absurd (cc h)
valid-truthy (c ∷ s) h = refl

module _ (v : Vocabulary) (reviewed : Reviews) where
  row_lacks_class-eq :
      (c : ProseCandidate)
      → has_invalid v reviewed c ≡ false
      → row_lacks_class (classified v reviewed c) ≡ lacks_class v reviewed c
  unfolding row_lacks_class lacks_class has_invalid is_invalid has_no_class truthy
  row_lacks_class-eq c h = elim (Option-cases (classified v reviewed c).classification) [
    | inl e ↦ rw e refl
    | inr (k, e) ↦ rw (e, valid-truthy k ((not-false (member k valid)).0 (rw e at h))) refl
  ]

  count-row_lacks_class :
      (cs : List ProseCandidate)
      → any (has_invalid v reviewed) cs ≡ false
      → count row_lacks_class (map (classified v reviewed) cs) ≡ count (lacks_class v reviewed) cs
  count-row_lacks_class [] h = refl
  count-row_lacks_class (c ∷ cs) h = elim (Bool-cases (has_invalid v reviewed c)) [
    | inl bad ↦ absurd (cc (rw bad at h))
    | inr good ↦ rw (row_lacks_class-eq c good, count-row_lacks_class cs (rw good at h)) refl
  ]

is_empty-keep {ℓ} :
    {A : Type ℓ} (p : A → Bool) (xs : List A)
    → (fail_if (not (is_empty (keep p xs))) ≡ 0) ↔ (count p xs ≡ 0)
unfolding is_empty
is_empty-keep p [] = (λ _. refl, λ _. refl)
is_empty-keep p (x ∷ xs) = elim (Bool-cases (p x)) [
  | inl h ↦ rw h (λ e. absurd (omega (arith, e)), λ e. absurd (omega (arith, e)))
  | inr h ↦
      let (to, from) = is_empty-keep p xs in
      rw h (λ e. omega (arith, to e), λ e. from (omega (arith, e)))
]

-- The summary of the artifact that a check writes counts every candidate, and counts none as
-- unclassified exactly when the check returned 0.
pub prose_summary-status :
    (v : Vocabulary) (reviewed : Reviews) (cands : List ProseCandidate) (rows : List CandidateRow)
    → (run_candidates v reviewed cands false).artifact ≡ some rows
    → ((prose_summary rows).total ≡ length cands)
      × (((run_candidates v reviewed cands false).status ≡ 0)
          ↔ ((prose_summary rows).unclassified ≡ 0))
unfolding refused finish prose_summary
prose_summary-status v reviewed cands rows h = elim (run_candidates-cases v reviewed cands false) [
  | inl (_, e) ↦ absurd (cc (rw e at h))
  | inr (p, good, e, filled, bare) ↦
      let same : map (classified v reviewed) cands ≡ rows =
        some-injective (map (classified v reviewed) cands) rows (rw (e, filled) at h) in
      (
        rw (sym same) (length-map cands (classified v reviewed)),
        rw (sym same, e, bare, count-row_lacks_class v reviewed cands good)
            (is_empty-keep (lacks_class v reviewed) cands),
      )
]
