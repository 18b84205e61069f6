-- ===== src/Prose/Candidates/Loop.antt =====
-- What the loop over the candidates leaves in its lists.
use libhw.Base.{
  Bool, Bool-cases, List, [], any, append-nil, append_assoc, false, if◌then◌else◌, inl, inr, keep,
  map, none, refl, some, sym, true, ◌++◌, ◌∙◌, ◌∷◌, ◌≡◌, ◌⊎◌,
}
use libhw.Prose.Candidates.{
  Lists, Reviews, advance, classified, classify_all, finish, has_no_class, is_invalid, no_lists,
  refused, run_candidates,
}
use libhw.Prose.Classify.{Vocabulary}
use libhw.Prose.Scan.{ProseCandidate}

module _ (v : Vocabulary) (reviewed : Reviews) where
  -- The loop where no class is invalid.
  abbrev advance_all : List ProseCandidate → Lists → Lists
  advance_all [] p = p
  advance_all (c ∷ cs) p = advance_all cs (advance c (classified v reviewed c) p)

  -- Some candidate has a class that is not valid.
  unfoldable pub has_invalid : ProseCandidate → Bool
  unfolding is_invalid classified
  has_invalid c = is_invalid (classified v reviewed c).classification

  unfoldable pub lacks_class : ProseCandidate → Bool
  unfolding has_no_class classified
  lacks_class c = has_no_class (classified v reviewed c).classification

  classify_all-eq :
      (cs : List ProseCandidate) (p : Lists)
      → classify_all v reviewed cs p
        ≡ (if any has_invalid cs then none else some (advance_all cs p))
  unfolding classify_all has_invalid
  classify_all-eq [] p = refl
  classify_all-eq (c ∷ cs) p =
      elim (Bool-cases (is_invalid (classified v reviewed c).classification)) [
        | inl h ↦ rw h refl
        | inr h ↦ rw h (classify_all-eq cs (advance c (classified v reviewed c) p))
      ]

  rows-advance_all :
      (cs : List ProseCandidate) (p : Lists)
      → (advance_all cs p).rows ≡ p.rows ++ map (classified v reviewed) cs
  unfolding advance
  rows-advance_all [] p = sym (append-nil p.rows)
  rows-advance_all (c ∷ cs) p =
      rows-advance_all cs (advance c (classified v reviewed c) p)
      ∙ append_assoc p.rows (classified v reviewed c ∷ []) (map (classified v reviewed) cs)

  unclassified-advance_all :
      (cs : List ProseCandidate) (p : Lists)
      → (advance_all cs p).unclassified ≡ p.unclassified ++ keep lacks_class cs
  unfolding advance lacks_class
  unclassified-advance_all [] p = sym (append-nil p.unclassified)
  unclassified-advance_all (c ∷ cs) p =
      unclassified-advance_all cs (advance c (classified v reviewed c) p)
      ∙ elim (Bool-cases (has_no_class (classified v reviewed c).classification)) [
        | inl h ↦ rw h (append_assoc p.unclassified (c ∷ []) (keep lacks_class cs))
        | inr h ↦ rw h refl
      ]

  -- A run, by what its loop leaves.
  pub run_candidates-cases :
      (cs : List ProseCandidate) (seeding : Bool)
      → (any has_invalid cs ≡ true) × (run_candidates v reviewed cs seeding ≡ refused)
        ⊎ (p : Lists) × (any has_invalid cs ≡ false)
          × (run_candidates v reviewed cs seeding ≡ finish seeding reviewed p)
          × (p.rows ≡ map (classified v reviewed) cs)
          × (p.unclassified ≡ keep lacks_class cs)
  unfolding run_candidates
  run_candidates-cases cs seeding = elim (Bool-cases (any has_invalid cs)) [
    | inl h ↦
        let e : classify_all v reviewed cs no_lists ≡ none =
          classify_all-eq cs no_lists ∙ (rw h refl) in
        inl (h, rw (e, run_candidates) refl)
    | inr h ↦
        let e : classify_all v reviewed cs no_lists ≡ some (advance_all cs no_lists) =
          classify_all-eq cs no_lists ∙ (rw h refl) in
        inr (
          advance_all cs no_lists,
          h,
          rw (e, run_candidates) refl,
          unfold no_lists in rows-advance_all cs no_lists,
          unfold no_lists in unclassified-advance_all cs no_lists,
        )
  ]
