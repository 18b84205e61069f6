-- ===== src/Prose/Scan/Bounds.antt =====
-- The candidates of a scan stay within the bounds of the scan.
use libhw.Base.{
  All, Bool-cases, List, Text, [], ap, arith, inl, inr, length, member, refl, some, strip, suc,
  take, true, zero, ℕ, ◌∙◌, ◌∷◌, ◌≡◌, ◌≤◌,
}
use libhw.Base.Regex.Iterate.{Occurrence}
use libhw.Importer.Target.{insert_sorted, sorted}
use libhw.Manifest.Diff.Keys.{All-sorted}
use libhw.Prose.Names.{is_listed, names_of}
use libhw.Prose.Names.Bounds.{HasNames, names_of-HasNames}
use libhw.Prose.Patterns.{Kind, comma_set, family, instr_ref, phrase, range, through}
use libhw.Prose.Scan.{ProseCandidate, as_set, candidate_id, candidate_of, context_of}

length-insert_sorted : (x : Text) (xs : List Text) → length (insert_sorted x xs) ≡ suc (length xs)
unfolding insert_sorted
length-insert_sorted x [] = refl
length-insert_sorted x (y ∷ ys) = ground (arith, length-insert_sorted x ys)

length-sorted : (xs : List Text) → length (sorted xs) ≡ length xs
unfolding sorted
length-sorted [] = refl
length-sorted (x ∷ xs) = length-insert_sorted x (sorted xs) ∙ ap suc (length-sorted xs)

length-as_set : (xs : List Text) → length (as_set xs) ≤ length xs
unfolding as_set
length-as_set [] = omega arith
length-as_set (x ∷ xs) = ground (arith, length-as_set xs)

as_set-ne : (xs : List Text) → 1 ≤ length xs → 1 ≤ length (as_set xs)
unfolding as_set member
as_set-ne [] h = h
as_set-ne (x ∷ []) h = h
as_set-ne (x ∷ y ∷ xs) h = ground (arith, as_set-ne (y ∷ xs))

module _ {κ} (P : Text → Type κ) where
  All-as_set : (xs : List Text) → All P xs → All P (as_set xs)
  unfolding as_set
  All-as_set [] h = h
  All-as_set (x ∷ xs) h = elim (Bool-cases (member x (as_set xs))) [
    | inl e ↦ rw e (All-as_set xs h.1)
    | inr e ↦ rw e (h.0, All-as_set xs h.1)
  ]

size-set :
    (xs : List Text) (limit : ℕ)
    → 1 ≤ length xs
    → length xs ≤ limit
    → (1 ≤ length (sorted (as_set xs))) × (length (sorted (as_set xs)) ≤ limit)
size-set xs limit some_name within =
    omega (arith, length-sorted (as_set xs), length-as_set xs, as_set-ne xs some_name)

-- Dropping doubles and sorting keeps what is known of the names.
set-HasNames :
    (kind : Kind) (names : List Text) → HasNames kind names → HasNames kind (sorted (as_set names))
unfolding sorted as_set insert_sorted member
set-HasNames range names h = size-set names 513 h.0 h.1
set-HasNames through names h = size-set names 513 h.0 h.1
set-HasNames Kind.count names h = rw h refl
set-HasNames phrase names h = rw h refl
set-HasNames family names (nm, e, h) = (nm, rw e refl, h)
set-HasNames instr_ref names (nm, e, h) = (nm, rw e refl, h)
set-HasNames comma_set names (some_name, h) = (
  (size-set names (length names) some_name (omega arith)).0,
  (All-sorted (λ t. is_listed t ≡ true) (as_set names)).1
      (All-as_set (λ t. is_listed t ≡ true) names h),
)

length-take {ℓ} : {A : Type ℓ} (n : ℕ) (xs : List A) → length (take n xs) ≤ n
length-take zero xs = omega arith
length-take (suc n) [] = omega arith
length-take (suc n) (x ∷ xs) = omega (arith, length-take n xs)

-- What the scan promises of a candidate: its id is the digest of its kind, text and section, its texts
-- are bounded, and its names are those of its kind.
pub record IsCandidate (sha1 : Text → Text) (c : ProseCandidate) : Type 0 where
  pub identified : c.cid ≡ candidate_id sha1 c.kind c.raw c.section
  pub short : length c.raw ≤ 90
  pub in_context : length c.context ≤ 150
  pub named : HasNames c.kind c.names

-- An entry under the id of its candidate.
abbrev pub IsFiled : (Text → Text) → Text × ProseCandidate → Type 0
IsFiled sha1 (k, c) = (k ≡ c.cid) × IsCandidate sha1 c

module _ (sha1 : Text → Text) where
  pub candidate_of-IsCandidate :
      (section : Text) (page : ℕ) (window : Text) (kind : Kind) (f : Occurrence) (names : List Text)
      → names_of kind f ≡ some names
      → length (strip f.whole) ≤ 90
      → IsCandidate sha1 (candidate_of sha1 section page window kind f names)
  unfolding candidate_of
  candidate_of-IsCandidate section page window kind f names h short = record {
    identified = refl;
    short = short;
    in_context = unfold context_of in length-take 150 _;
    named = set-HasNames kind names (names_of-HasNames kind f names h);
  }
