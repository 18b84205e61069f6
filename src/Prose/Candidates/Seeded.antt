-- ===== src/Prose/Candidates/Seeded.antt =====
-- Seeding the review file adds entries that are still to be reviewed.
use libhw.Base.{
  Bool-cases, List, Option, Text, [], any, arith, false, has_key, inl, inr, keep, lookup,
  lookup-insert, none, not, refl, set_default, some, some-injective, sym, text_eq, true, ◌∷◌, ◌≡◌,
  ◌⊎◌,
}
use libhw.Prose.Candidates.{
  Review, Reviews, classified, fail_if, finish, has_no_class, is_invalid, refused, review_of,
  reviewed_row, row_of, run_candidates, seed_reviews, to_review,
}
use libhw.Prose.Candidates.Loop.{has_invalid, lacks_class, run_candidates-cases}
use libhw.Prose.Classify.{Vocabulary}
use libhw.Prose.Scan.{ProseCandidate}
use libhw.Sources.Lock.{is_empty}

-- The entry under an id is as before, or it is a new one that is to be reviewed.
abbrev pub Grown : Option (Option Review) → Option (Option Review) → Type 0
Grown before after = (after ≡ before) ⊎ ((c : ProseCandidate) × (after ≡ some (some (to_review c))))

set_default-Grown :
    (cid : Text) (c : ProseCandidate) (d : Reviews) (before : Option (Option Review))
    → Grown before (lookup cid d)
    → Grown before (lookup cid (set_default c.cid (some (to_review c)) d))
unfolding set_default
set_default-Grown cid c d before h = elim (Bool-cases (has_key c.cid d)) [
  | inl there ↦ rw there h
  | inr new ↦ elim (Bool-cases (text_eq c.cid cid)) [
    | inl same ↦ inr (c, rw (new, lookup-insert c.cid cid (some (to_review c)) d, same) refl)
    | inr other ↦ rw (new, lookup-insert c.cid cid (some (to_review c)) d, other) h
  ]
]

pub seed_reviews-Grown :
    (cid : Text) (us : List ProseCandidate) (d : Reviews) (before : Option (Option Review))
    → Grown before (lookup cid d)
    → Grown before (lookup cid (seed_reviews us d))
unfolding seed_reviews
seed_reviews-Grown cid [] d before h = h
seed_reviews-Grown cid (c ∷ us) d before h =
    seed_reviews-Grown cid us _ before (set_default-Grown cid c d before h)

module _ (v : Vocabulary) (reviewed : Reviews) (us : List ProseCandidate) where
  abbrev later : Reviews
  later = seed_reviews us reviewed

  classified-later :
      (c : ProseCandidate)
      → (classified v later c ≡ classified v reviewed c)
        ⊎ ((classified v later c).classification ≡ none)
  unfolding classified review_of
  classified-later c =
      elim (seed_reviews-Grown c.cid us reviewed (lookup c.cid reviewed) (inl refl)) [
        | inl e ↦ inl (rw (e, classified) refl)
        | inr (u, e) ↦ inr (rw (e, classified) (unfold reviewed_row row_of to_review in refl))
      ]

  has_invalid-later :
      (cs : List ProseCandidate)
      → any (has_invalid v reviewed) cs ≡ false
      → any (has_invalid v later) cs ≡ false
  unfolding has_invalid is_invalid
  has_invalid-later [] h = refl
  has_invalid-later (c ∷ cs) h = elim (classified-later c) [
    | inl e ↦ rw e (ground (arith, h, has_invalid-later cs))
    | inr e ↦ rw e (ground (arith, h, has_invalid-later cs))
  ]

  lacks_class-later :
      (cs : List ProseCandidate)
      → is_empty (keep (lacks_class v reviewed) cs) ≡ false
      → is_empty (keep (lacks_class v later) cs) ≡ false
  unfolding lacks_class has_no_class is_empty
  lacks_class-later [] h = h
  lacks_class-later (c ∷ cs) h = elim (classified-later c) [
    | inl e ↦ rw e (ground (arith, h, lacks_class-later cs))
    | inr e ↦ rw e refl
  ]

-- The status of a check whose classes are all valid.
check-status :
    (v : Vocabulary) (reviewed : Reviews) (cands : List ProseCandidate)
    → any (has_invalid v reviewed) cands ≡ false
    → (run_candidates v reviewed cands false).status
      ≡ fail_if (not (is_empty (keep (lacks_class v reviewed) cands)))
unfolding finish
check-status v reviewed cands good = elim (run_candidates-cases v reviewed cands false) [
  | inl (bad, _) ↦ absurd (cc (bad, good))
  | inr (p, _, e, _, bare) ↦ rw (e, bare) refl
]

seed_reviews-empty :
    (us : List ProseCandidate) (d : Reviews) → is_empty us ≡ true → seed_reviews us d ≡ d
unfolding seed_reviews is_empty
seed_reviews-empty [] d h = refl
seed_reviews-empty (u ∷ us) d h = absurd (cc h)

-- Seeding the review file does not change the status of a check: what was unclassified still is.
pub seed_reviews-status :
    (v : Vocabulary) (reviewed seeded : Reviews) (cands : List ProseCandidate)
    → (run_candidates v reviewed cands true).reviews ≡ some seeded
    → (run_candidates v seeded cands false).status ≡ (run_candidates v reviewed cands false).status
unfolding refused finish
seed_reviews-status v reviewed seeded cands h = elim (run_candidates-cases v reviewed cands true) [
  | inl (_, e) ↦ absurd (cc (rw e at h))
  | inr (p, good, e, _, bare) ↦
      let us = keep (lacks_class v reviewed) cands in
      let same : seed_reviews us reviewed ≡ seeded =
        some-injective (seed_reviews us reviewed) seeded (rw (e, bare) at h) in
      elim (Bool-cases (is_empty us)) [
        | inl none_left ↦ rw (sym same, seed_reviews-empty us reviewed none_left) refl
        | inr some_left ↦
            rw
              (
                sym same,
                check-status v reviewed cands good,
                check-status v (seed_reviews us reviewed) cands
                    (has_invalid-later v reviewed us cands good),
                some_left,
                lacks_class-later v reviewed us cands some_left,
              )
              refl
      ]
]
