-- ===== src/Prose/Candidates/Status.antt =====
-- The status of a run over the candidates, and what seeding the review file changes.
use libhw.Base.{
  All, Bool, List, Option, Option-cases, Text, [], any, arith, false, if◌then◌else◌, inl, inr, keep,
  member, none, not, not-false, refl, some, some-injective, subst, sym, true, ◌<◌, ◌||◌, ◌↔◌, ◌∙◌,
  ◌∷◌, ◌≡◌,
}
use libhw.Prose.Candidates.{
  Lists, Reviews, auto_row, classified, fail_if, finish, has_no_class, is_invalid, refused,
  review_of, reviewed_row, row_of, run_candidates,
}
use libhw.Prose.Candidates.Loop.{has_invalid, lacks_class, run_candidates-cases}
use libhw.Prose.Classify.{Decision, Vocabulary, auto_classify, valid}
use libhw.Prose.Classify.Valid.{auto_classify-member}
use libhw.Prose.Scan.{ProseCandidate}
use libhw.Sources.Lock.{is_empty}

-- Every candidate of the run has a class, and the class is valid.
abbrev pub IsDecided : Vocabulary → Reviews → ProseCandidate → Type 0
IsDecided v reviewed c =
    (class : Text) × ((classified v reviewed c).classification ≡ some class)
    × (member class valid ≡ true)

-- A review gives the candidate a class that is not valid.
unfoldable pub has_bad_review : Reviews → ProseCandidate → Bool
unfolding review_of is_invalid
has_bad_review reviewed c = elim (review_of reviewed c.cid) [
  | none ↦ false
  | some r ↦ is_invalid r.class
]

-- The two tests on a list of candidates, at its head and behind it.
split-tests :
    (c : ProseCandidate) (bad bare bad_later : Bool) (bare_later : List ProseCandidate)
    → (((bad || bad_later) ≡ false)
        × (is_empty (if bare then c ∷ bare_later else bare_later) ≡ true))
      ↔ (((bad ≡ false) × (bare ≡ false)) × ((bad_later ≡ false) × (is_empty bare_later ≡ true)))
unfolding is_empty
split-tests c true bare bad_later bare_later = ground arith
split-tests c false true bad_later bare_later = ground arith
split-tests c false false bad_later bare_later = ground arith

module _ (v : Vocabulary) (reviewed : Reviews) where
  -- Only a review can give a class that is not valid.
  has_invalid-eq : (c : ProseCandidate) → has_invalid v reviewed c ≡ has_bad_review reviewed c
  unfolding has_invalid has_bad_review classified
  has_invalid-eq c = elim (Option-cases (review_of reviewed c.cid)) [
    | inr (r, e) ↦ rw (e, classified, has_bad_review) (unfold reviewed_row row_of in refl)
    | inl e ↦ rw (e, classified, has_bad_review) (auto-valid (auto_classify v c) refl)
  ]
    where
      auto-valid :
          (d : Option Decision)
          → auto_classify v c ≡ d
          → is_invalid (auto_row c d).classification ≡ false
      auto-valid none h = unfold auto_row row_of is_invalid in refl
      auto-valid (some (class, reason)) h =
          unfold auto_row row_of is_invalid in rw (auto_classify-member v c (class, reason) h) refl

  any-has_invalid :
      (cs : List ProseCandidate)
      → any (has_invalid v reviewed) cs ≡ any (has_bad_review reviewed) cs
  any-has_invalid [] = refl
  any-has_invalid (c ∷ cs) = rw (has_invalid-eq c, any-has_invalid cs) refl

  pub IsDecided-iff :
      (c : ProseCandidate)
      → ((has_invalid v reviewed c ≡ false) × (lacks_class v reviewed c ≡ false))
        ↔ IsDecided v reviewed c
  unfolding has_invalid lacks_class is_invalid has_no_class
  IsDecided-iff c = elim (Option-cases (classified v reviewed c).classification) [
    | inl e ↦ (λ (_, h). absurd (cc (rw e at h)), λ (class, h, _). absurd (cc (e, h)))
    | inr (k, e) ↦ (
      λ (h, _). (k, e, (not-false (member k valid)).0 (rw e at h)),
      λ (class, h, m).
          let known : member k valid ≡ true =
            subst (λ n. member n valid ≡ true) (some-injective class k (sym h ∙ e)) m in
          rw (e, known) (refl, refl),
    )
  ]

  All-IsDecided :
      (cs : List ProseCandidate)
      → ((any (has_invalid v reviewed) cs ≡ false)
          × (is_empty (keep (lacks_class v reviewed) cs) ≡ true))
        ↔ All (IsDecided v reviewed) cs
  unfolding is_empty
  All-IsDecided [] = (λ _. tt, λ _. (refl, refl))
  All-IsDecided (c ∷ cs) =
      let (to, from) = IsDecided-iff c in
      let (every_to, every_from) = All-IsDecided cs in
      let (split, join) =
        split-tests c (has_invalid v reviewed c) (lacks_class v reviewed c)
          (any (has_invalid v reviewed) cs) (keep (lacks_class v reviewed) cs) in
      (λ h. (to (split h).0, every_to (split h).1), λ (h, hs). join (from h, every_from hs))

pub fail_if-zero : (b : Bool) → (fail_if (not b) ≡ 0) ↔ (b ≡ true)
fail_if-zero true = (λ _. refl, λ _. refl)
fail_if-zero false = (λ h. absurd (omega (arith, h)), λ h. absurd (cc h))

-- A check returns 0 exactly when every candidate has a class, and every class is valid.
pub run_candidates-zero :
    (v : Vocabulary) (reviewed : Reviews) (cands : List ProseCandidate)
    → ((run_candidates v reviewed cands false).status ≡ 0) ↔ All (IsDecided v reviewed) cands
unfolding refused finish
run_candidates-zero v reviewed cands =
    let (to, from) = All-IsDecided v reviewed cands in
    elim (run_candidates-cases v reviewed cands false) [
      | inl (bad, e) ↦ (rw e (λ h. absurd (omega (arith, h))), λ h. absurd (cc ((from h).0, bad)))
      | inr (p, good, e, _, bare) ↦
          let (passes, none_bare) = fail_if-zero (is_empty (keep (lacks_class v reviewed) cands)) in
          rw (e, finish, bare) (λ h. to (good, passes h), λ h. none_bare (from h).1)
    ]

finish-status :
    (seeding : Bool) (reviewed : Reviews) (p : Lists) → (finish seeding reviewed p).status < 2
unfolding finish
finish-status true reviewed p = omega arith
finish-status false reviewed p = ground arith

-- A run returns 2 exactly when a review gives some candidate a class that is not valid: the program's
-- own classification never does.
pub run_candidates-two :
    (v : Vocabulary) (reviewed : Reviews) (cands : List ProseCandidate) (seeding : Bool)
    → ((run_candidates v reviewed cands seeding).status ≡ 2)
      ↔ (any (has_bad_review reviewed) cands ≡ true)
unfolding refused
run_candidates-two v reviewed cands seeding = elim (run_candidates-cases v reviewed cands seeding) [
  | inl (bad, e) ↦ (λ _. sym (any-has_invalid v reviewed cands) ∙ bad, λ _. rw e refl)
  | inr (p, good, e, _, _) ↦ (
    λ h. absurd (omega (arith, finish-status seeding reviewed p, rw e at h)),
    λ h. absurd (cc (any-has_invalid v reviewed cands, h, good)),
  )
]
