-- ===== src/Prose/Names/Bounds.antt =====
-- What the names of a match can be, by the kind of the match.
use mathlib.Core.Path.{subst}
use libhw.Base.{
  All, Bool, Bool-cases, List, Text, [], ap, arith, false, if◌then◌else◌, inl, inr, keep, length,
  length-map, ltb, map, member, none, not, or_else, range_from, refl, some, some-injective, strip,
  suc, sym, text_eq, true, zero, ℕ, ◌&&◌, ◌++◌, ◌+◌, ◌-◌, ◌||◌, ◌∙◌, ◌∷◌, ◌≡◌, ◌≤◌,
}
use libhw.Base.Numeral.{decimal}
use libhw.Base.Regex.{Match, group_of, text_of_group}
use libhw.Base.Regex.Iterate.{Occurrence, split_at}
use libhw.Model.Identifier.{strip_underscores}
use libhw.Prose.Names.{
  count_names, expand, is_listed, listed_names, names_of, number_of, range_names, single_name,
}
use libhw.Prose.Patterns.{
  Kind, comma, comma_set, family, instr_ref, phrase, range, stopwords, through,
}
use libhw.Sources.Lock.{is_empty}

-- A range names at least one register and at most 513, a name is not a stopword, and a list has
-- register names only, at least one of which is left when doubles are dropped.
abbrev pub HasNames : Kind → List Text → Type 0
HasNames range names = (1 ≤ length names) × (length names ≤ 513)
HasNames through names = (1 ≤ length names) × (length names ≤ 513)
HasNames Kind.count names = names ≡ []
HasNames phrase names = names ≡ []
HasNames family names = (nm : Text) × (names ≡ nm ∷ []) × (member nm stopwords ≡ false)
HasNames instr_ref names = (nm : Text) × (names ≡ nm ∷ []) × (member nm stopwords ≡ false)
HasNames comma_set names = (1 ≤ length names) × All (λ t. is_listed t ≡ true) names

length-range_from : (lo n : ℕ) → length (range_from lo n) ≡ n
length-range_from lo zero = refl
length-range_from lo (suc n) = ap suc (length-range_from (lo + 1) n)

pub length-expand : (base : Text) (lo hi limit : ℕ) → length (expand base lo hi limit) ≤ limit + 1
unfolding expand
length-expand base lo hi limit =
    let size =
      length-map (range_from lo (hi + 1 - lo)) (λ i. base ++ decimal i)
      ∙ length-range_from lo (hi + 1 - lo) in
    ground (arith, size)

is_empty-length {ℓ} : {A : Type ℓ} (xs : List A) → is_empty xs ≡ false → 1 ≤ length xs
unfolding is_empty
is_empty-length [] h = absurd (cc h)
is_empty-length (x ∷ xs) h = omega arith

All-keep {ℓ} : {A : Type ℓ} (p : A → Bool) (xs : List A) → All (λ x. p x ≡ true) (keep p xs)
All-keep p [] = tt
All-keep p (x ∷ xs) = elim (Bool-cases (p x)) [
  | inl h ↦ rw (h, h) (refl, All-keep p xs)
  | inr h ↦ rw h (All-keep p xs)
]

-- Three guards in front of a result.
guarded :
    (a b : Bool) (xs names : List Text)
    → (if a then none else if b then none else if is_empty xs then none else some xs) ≡ some names
    → (1 ≤ length xs) × (xs ≡ names)
guarded a b xs names h = ground (arith, h, is_empty-length xs, some-injective xs names)

range_names-HasNames :
    (m : Match) (names : List Text)
    → range_names m ≡ some names
    → (1 ≤ length names) × (length names ≤ 513)
unfolding range_names
range_names-HasNames m names h =
    let base = strip_underscores (or_else (group_of m "base") (text_of_group m "base2")) in
    let b2 = strip_underscores (text_of_group m "base2") in
    let lo = number_of (text_of_group m "lo") in
    let hi = number_of (text_of_group m "hi") in
    let (some_name, same) =
      guarded (is_empty base || member base stopwords) (not (is_empty b2) && not (text_eq b2 base))
        (expand base lo hi 512) names h in
    subst (λ l. (1 ≤ length l) × (length l ≤ 513)) same (some_name, length-expand base lo hi 512)

single_name-HasNames :
    (m : Match) (names : List Text)
    → single_name m ≡ some names
    → (nm : Text) × (names ≡ nm ∷ []) × (member nm stopwords ≡ false)
unfolding single_name
single_name-HasNames m names h = elim (Bool-cases (member (text_of_group m "name") stopwords)) [
  | inl e ↦ absurd (cc (rw e at h))
  | inr e ↦ (text_of_group m "name", ground (arith, h), e)
]

count_names-HasNames : (m : Match) (names : List Text) → count_names m ≡ some names → names ≡ []
unfolding count_names
count_names-HasNames m names h = ground (arith, h)

listed_names-HasNames :
    (whole : Text) (names : List Text)
    → listed_names whole ≡ some names
    → (1 ≤ length names) × All (λ t. is_listed t ≡ true) names
unfolding listed_names
listed_names-HasNames whole names h =
    let kept = keep is_listed (map strip (split_at comma whole)) in
    elim (Bool-cases (ltb (length kept) 3)) [
      | inl e ↦ absurd (cc (rw e at h))
      | inr e ↦
          let same : kept ≡ names = some-injective kept names (rw e at h) in
          (
            subst (λ l. 1 ≤ length l) same (ground (arith, e)),
            subst (λ l. All (λ t. is_listed t ≡ true) l) same
                (All-keep is_listed (map strip (split_at comma whole))),
          )
    ]

pub names_of-HasNames :
    (kind : Kind) (f : Occurrence) (names : List Text)
    → names_of kind f ≡ some names
    → HasNames kind names
unfolding names_of
names_of-HasNames range f names h = range_names-HasNames f.found names h
names_of-HasNames through f names h = range_names-HasNames f.found names h
names_of-HasNames Kind.count f names h = count_names-HasNames f.found names h
names_of-HasNames phrase f names h = sym (some-injective [] names h)
names_of-HasNames family f names h = single_name-HasNames f.found names h
names_of-HasNames instr_ref f names h = single_name-HasNames f.found names h
names_of-HasNames comma_set f names h = listed_names-HasNames f.whole names h
