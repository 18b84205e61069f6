-- ===== src/Prose/Candidates/Reviewed.antt =====
-- A review that is completed after seeding passes the check.
use libhw.Base.{
  All, All-mono, All-zip, Bool, Bool-cases, List, Option, Option-cases, Text, [], any-false, ap,
  false, has_key, has_key-insert, has_key-lookup, if◌then◌else◌, inl, inr, keep, lookup, member,
  none, not-false, refl, set_default, some, some-injective, subst, sym, text_eq, text_eq_iff,
  text_eq_refl, true, ◌∙◌, ◌∷◌, ◌≡◌,
}
use libhw.Prose.Candidates.{
  Review, Reviews, auto_row, classified, finish, is_invalid, refused, review_of, reviewed_row,
  row_of, run_candidates, seed_reviews, to_review,
}
use libhw.Prose.Candidates.Loop.{has_invalid, lacks_class, run_candidates-cases}
use libhw.Prose.Candidates.Seeded.{seed_reviews-Grown}
use libhw.Prose.Candidates.Status.{IsDecided, IsDecided-iff, run_candidates-zero}
use libhw.Prose.Classify.{Vocabulary, auto_classify, valid}
use libhw.Prose.Scan.{ProseCandidate}

-- The entry once a reviewer has given it a class, if it had none.
unfoldable pub with_class : Text → Option Review → Review
with_class k none = record {
  raw = none;
  section = none;
  page = none;
  context = none;
  names = none;
  class = some k;
  reason = none;
}
with_class k (some r) = elim r.class [ none ↦ record r { class = some k } | some c ↦ r ]

-- A reviewer gives each entry without a class the class that `k` says for its id.
unfoldable pub completed : (Text → Text) → Reviews → Reviews
unfolding with_class
completed k [] = []
completed k ((cid, o) ∷ d) = (cid, some (with_class (k cid) o)) ∷ completed k d

abbrev completed_entry : Text → Option (Option Review) → Option (Option Review)
completed_entry k none = none
completed_entry k (some o) = some (some (with_class k o))

lookup-completed :
    (cid : Text) (k : Text → Text) (d : Reviews)
    → lookup cid (completed k d) ≡ completed_entry (k cid) (lookup cid d)
unfolding lookup completed
lookup-completed cid k [] = refl
lookup-completed cid k ((j, o) ∷ d) = elim (Bool-cases (text_eq j cid)) [
  | inl h ↦ rw h (ap (λ i. some (some (with_class (k i) o))) ((text_eq_iff j cid).0 h))
  | inr h ↦ rw h (lookup-completed cid k d)
]

-- A class that is there stays, and one that is missing becomes `k`.
with_class-valid :
    (k : Text) (o : Option Review)
    → member k valid ≡ true
    → ((r : Review) → o ≡ some r → is_invalid r.class ≡ false)
    → (class : Text) × ((with_class k o).class ≡ some class) × (member class valid ≡ true)
unfolding with_class is_invalid
with_class-valid k none h good = (k, refl, h)
with_class-valid k (some r) h good = elim (Option-cases r.class) [
  | inl e ↦ (k, rw (e, with_class) refl, h)
  | inr (c, e) ↦ (c, rw (e, with_class) e, (not-false (member c valid)).0 (rw e at (good r refl)))
]

set_default-there :
    (k : Text) (c : ProseCandidate) (d : Reviews)
    → has_key k d ≡ true
    → has_key k (set_default c.cid (some (to_review c)) d) ≡ true
unfolding set_default
set_default-there k c d h = elim (Bool-cases (has_key c.cid d)) [
  | inl e ↦ rw e h
  | inr e ↦ rw (e, has_key-insert c.cid k (some (to_review c)) d, h) (if_same (text_eq c.cid k))
]
  where
    if_same : (b : Bool) → (if b then true else true) ≡ true
    if_same true = refl
    if_same false = refl

set_default-new :
    (c : ProseCandidate) (d : Reviews)
    → has_key c.cid (set_default c.cid (some (to_review c)) d) ≡ true
unfolding set_default
set_default-new c d = elim (Bool-cases (has_key c.cid d)) [
  | inl e ↦ rw (e, set_default) e
  | inr e ↦ rw (e, has_key-insert c.cid c.cid (some (to_review c)) d, text_eq_refl c.cid) refl
]

seed_reviews-there :
    (k : Text) (us : List ProseCandidate) (d : Reviews)
    → has_key k d ≡ true
    → has_key k (seed_reviews us d) ≡ true
unfolding seed_reviews
seed_reviews-there k [] d h = h
seed_reviews-there k (c ∷ us) d h = seed_reviews-there k us _ (set_default-there k c d h)

-- Seeding files an entry for each candidate of its list.
seed_reviews-files :
    (us : List ProseCandidate) (d : Reviews)
    → All (λ c. has_key c.cid (seed_reviews us d) ≡ true) us
unfolding seed_reviews
seed_reviews-files [] d = tt
seed_reviews-files (c ∷ us) d =
    (seed_reviews-there c.cid us _ (set_default-new c d), seed_reviews-files us _)

All-kept {ℓ κ} :
    {A : Type ℓ} (P : A → Type κ) (p : A → Bool) (xs : List A)
    → All P (keep p xs)
    → All (λ x. p x ≡ true → P x) xs
All-kept P p [] h = tt
All-kept P p (x ∷ xs) h = elim (Bool-cases (p x)) [
  | inl e ↦ (λ _. (rw e at h).0, All-kept P p xs (rw e at h).1)
  | inr e ↦ (λ f. absurd (cc (e, f)), All-kept P p xs (rw e at h))
]

module _ (v : Vocabulary) (d : Reviews) (c : ProseCandidate) where
  classified-none : lookup c.cid d ≡ none → classified v d c ≡ auto_row c (auto_classify v c)
  unfolding classified review_of
  classified-none e = rw (e, classified) refl

  classified-some :
      (r : Review) → lookup c.cid d ≡ some (some r) → classified v d c ≡ reviewed_row c r
  unfolding classified review_of
  classified-some r e = rw (e, classified) refl

module _ (v : Vocabulary) (reviewed : Reviews) (us : List ProseCandidate) (k : Text → Text)
    (known : (cid : Text) → member (k cid) valid ≡ true) (c : ProseCandidate)
    (good : has_invalid v reviewed c ≡ false) where
  abbrev filed : Reviews
  filed = seed_reviews us reviewed

  abbrev at_last : Reviews
  at_last = completed k filed

  -- An entry with a class has a valid one.
  filed-good :
      (o : Option Review) (r : Review)
      → lookup c.cid filed ≡ some o
      → o ≡ some r
      → is_invalid r.class ≡ false
  unfolding has_invalid
  filed-good o r e same =
      elim (seed_reviews-Grown c.cid us reviewed (lookup c.cid reviewed) (inl refl)) [
        | inl grown ↦
            let found : lookup c.cid reviewed ≡ some (some r) = sym grown ∙ e ∙ ap some same in
            unfold reviewed_row row_of in rw (classified-some v reviewed c r found) at good
        | inr (u, grown) ↦
            let fresh : r ≡ to_review u =
              some-injective r (to_review u) (
                some-injective (some r) (some (to_review u))
                  (sym (ap some same) ∙ sym e ∙ grown)) in
            rw fresh (unfold to_review is_invalid in refl)
      ]

  -- A candidate of a valid class, or one for which there is an entry, has a valid class at last.
  completed-IsDecided :
      (lacks_class v reviewed c ≡ true → has_key c.cid filed ≡ true) → IsDecided v at_last c
  completed-IsDecided there = elim (Option-cases (lookup c.cid filed)) [
    | inl e ↦
        let absent : lookup c.cid at_last ≡ none = lookup-completed c.cid k filed ∙ (rw e refl) in
        let unseen : lookup c.cid reviewed ≡ none =
          elim (seed_reviews-Grown c.cid us reviewed (lookup c.cid reviewed) (inl refl)) [
            | inl grown ↦ sym grown ∙ e
            | inr (u, grown) ↦ absurd (cc (grown, e))
          ] in
        let has_class : lacks_class v reviewed c ≡ false =
          elim (Bool-cases (lacks_class v reviewed c)) [
            | inl bare ↦ absurd (cc (there bare, has_key-lookup c.cid filed e))
            | inr h ↦ h
          ] in
        subst
          (λ row. (class : Text) × (row.classification ≡ some class) × (member class valid ≡ true))
          (classified-none v reviewed c unseen ∙ sym (classified-none v at_last c absent))
          ((IsDecided-iff v reviewed c).0 (good, has_class))
    | inr (o, e) ↦
        let found : lookup c.cid at_last ≡ some (some (with_class (k c.cid) o)) =
          lookup-completed c.cid k filed ∙ (rw e refl) in
        subst
          (λ row. (class : Text) × (row.classification ≡ some class) × (member class valid ≡ true))
          (sym (classified-some v at_last c (with_class (k c.cid) o) found))
          (unfold reviewed_row row_of in
            with_class-valid (k c.cid) o (known c.cid) (λ r. filed-good o r e))
  ]

-- Once the file has been seeded and a reviewer has given each entry without a class one of the valid classes,
-- whichever it is for each, the check returns 0.
pub seed_reviews-completed :
    (v : Vocabulary) (reviewed seeded : Reviews) (cands : List ProseCandidate)
    → (k : Text → Text) → ((cid : Text) → member (k cid) valid ≡ true)
    → (run_candidates v reviewed cands true).reviews ≡ some seeded
    → (run_candidates v (completed k seeded) cands false).status ≡ 0
unfolding refused finish
seed_reviews-completed v reviewed seeded cands k known h =
    elim (run_candidates-cases v reviewed cands true) [
      | inl (_, e) ↦ absurd (cc (rw e at h))
      | inr (p, good, e, _, bare) ↦
          let us = keep (lacks_class v reviewed) cands in
          let same : seed_reviews us reviewed ≡ seeded =
            some-injective (seed_reviews us reviewed) seeded (rw (e, bare) at h) in
          let goods = (any-false (has_invalid v reviewed) cands).0 good in
          let files =
            All-kept (λ c. has_key c.cid (seed_reviews us reviewed) ≡ true) (lacks_class v reviewed)
              cands (seed_reviews-files us reviewed) in
          rw (sym same) (
            (run_candidates-zero v (completed k (seed_reviews us reviewed)) cands).1 (
              All-mono (λ c (g, t). completed-IsDecided v reviewed us k known c g t) cands
                ((All-zip _ _ cands).0 (goods, files))))
    ]
