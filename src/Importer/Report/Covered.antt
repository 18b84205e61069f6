-- ===== src/Importer/Report/Covered.antt =====
-- Which names of an index an import covers, as the cross-check asks.
use libhw.Base.{
  Bool, Bool-cases, List, Text, [], ap, arith, false, get_elem?, inl, inr, keep, map, member, not,
  refl, some, some-injective, subst, suc, sym, text_eq, text_eq_iff, true, zero, ℕ, ◌&&◌, ◌++◌,
  ◌||◌, ◌↔◌, ◌∙◌, ◌∷◌, ◌≡◌, ◌≢◌, ◌⊎◌,
}
use libhw.Importer.Report.{imported_names, is_missing, norm}
use libhw.Model.Entry.{StateEntry}
use libhw.Model.Kinds.{
  Classification, alias, architecture_defined, conditional_state, emitted_state, explicit_exclusion,
  non_state_operation, same_class,
}

-- An entry of the import that is not an exclusion stands for the name: it has the name, or the same name up
-- to the placeholder or the number at its end, or the name without that.
abbrev StandsFor : Text → StateEntry → Type 0
StandsFor n e =
    (e.classification ≢ explicit_exclusion)
    × ((e.canonical_name ≡ n) ⊎ ((norm e.canonical_name ≡ norm n) ⊎ (e.canonical_name ≡ norm n)))

-- Some entry of the import stands for the name.
abbrev pub IsCovered : List StateEntry → Text → Type 0
IsCovered entries n = (k : ℕ) × (e : StateEntry) × (get_elem? entries k ≡ some e) × StandsFor n e

same_class-excluded :
    (c : Classification) → (same_class c explicit_exclusion ≡ true) ↔ (c ≡ explicit_exclusion)
unfolding same_class
same_class-excluded emitted_state = (λ h. cc, λ h. cc)
same_class-excluded architecture_defined = (λ h. cc, λ h. cc)
same_class-excluded alias = (λ h. cc, λ h. cc)
same_class-excluded non_state_operation = (λ h. cc, λ h. cc)
same_class-excluded conditional_state = (λ h. cc, λ h. cc)
same_class-excluded explicit_exclusion = (λ _. refl, λ _. refl)

-- An entry that is not an exclusion has the name `x` once `f` has been applied to it.
abbrev Named : (Text → Text) → Text → List StateEntry → Type 0
Named f x es =
    (k : ℕ) × (e : StateEntry) × (get_elem? es k ≡ some e)
    × ((e.classification ≢ explicit_exclusion) × (f e.canonical_name ≡ x))

Named-later :
    (f : Text → Text) (x : Text) (e : StateEntry) (es : List StateEntry)
    → Named f x es
    → Named f x (e ∷ es)
Named-later f x e es (k, found, at, rest) = (suc k, found, at, rest)

Named-cons :
    (f : Text → Text) (x : Text) (e : StateEntry) (es : List StateEntry)
    → Named f x (e ∷ es)
    → ((e.classification ≢ explicit_exclusion) × (f e.canonical_name ≡ x)) ⊎ Named f x es
Named-cons f x e es (zero, found, at, rest) = inl (
    subst (λ (g : StateEntry). (g.classification ≢ explicit_exclusion) × (f g.canonical_name ≡ x))
      (sym (some-injective e found at)) rest)
Named-cons f x e es (suc k, found, at, rest) = inr (k, found, at, rest)

module _ (f : Text → Text) (x : Text) where
  member-kept :
      (e : StateEntry) (names : List Text) (es : List StateEntry)
      → e.classification ≢ explicit_exclusion
      → (member x names ≡ true) ↔ Named f x es
      → (member x (f e.canonical_name ∷ names) ≡ true) ↔ Named f x (e ∷ es)
  unfolding member
  member-kept e names es kept (to, from) = elim (Bool-cases (text_eq x (f e.canonical_name))) [
    | inl same ↦ (
      λ _. (0, e, refl, (kept, sym ((text_eq_iff x (f e.canonical_name)).0 same))),
      λ _. rw same refl,
    )
    | inr other ↦ (
      λ h. Named-later f x e es (to (rw other at h)),
      λ h. elim (Named-cons f x e es h) [
        | inl here ↦ absurd (cc (other, (text_eq_iff x (f e.canonical_name)).1 (sym here.1)))
        | inr there ↦ rw other (from there)
      ],
    )
  ]

  member-imported_names :
      (es : List StateEntry) → (member x (map f (imported_names es)) ≡ true) ↔ Named f x es
  unfolding imported_names
  member-imported_names [] =
      (λ h. absurd (unfold member in cc h), λ (k, e, at, rest). absurd (cc at))
  member-imported_names (e ∷ es) =
      let (to, from) = member-imported_names es in
      let (is_excluded, excludes) = same_class-excluded e.classification in
      elim (Bool-cases (same_class e.classification explicit_exclusion)) [
        | inl out ↦ rw out (
          λ h. Named-later f x e es (to h),
          λ h. elim (Named-cons f x e es h) [
            | inl here ↦ absurd (here.0 (is_excluded out))
            | inr there ↦ from there
          ],
        )
        | inr in_ ↦
            rw in_
              (member-kept e (map f (imported_names es)) es (λ c. cc (in_, excludes c)) (to, from))
      ]

map_same : (xs : List Text) → map (λ n. n) xs ≡ xs
map_same [] = refl
map_same (x ∷ xs) = ap (λ l. x ∷ l) (map_same xs)

member-append : (x : Text) (xs ys : List Text) → member x (xs ++ ys) ≡ (member x xs || member x ys)
unfolding member
member-append x [] ys = refl
member-append x (y ∷ xs) ys = ground (arith, member-append x xs ys)

member-names :
    (x : Text) (es : List StateEntry) → (member x (imported_names es) ≡ true) ↔ Named (λ n. n) x es
member-names x es =
    subst (λ l. (member x l ≡ true) ↔ Named (λ n. n) x es) (map_same (imported_names es))
      (member-imported_names (λ n. n) x es)

three :
    (a b c : Bool) → ((not a && not (b || c)) ≡ false) ↔ ((a ≡ true) ⊎ ((b ≡ true) ⊎ (c ≡ true)))
three true b c = (λ _. inl refl, λ _. refl)
three false true c = (λ _. inr (inl refl), λ _. refl)
three false false true = (λ _. inr (inr refl), λ _. refl)
three false false false = (
  λ h. absurd (cc h),
  λ h. elim h [
    | inl e ↦ absurd (cc e)
    | inr e ↦ elim e [ inl g ↦ absurd (cc g) | inr g ↦ absurd (cc g) ]
  ],
)

pub is_missing-false :
    (entries : List StateEntry) (n : Text)
    → (is_missing (imported_names entries) n ≡ false) ↔ IsCovered entries n
unfolding is_missing
is_missing-false entries n =
    let names = imported_names entries in
    let (plain_to, plain_from) = member-names n entries in
    let (norm_to, norm_from) = member-imported_names norm (norm n) entries in
    let (bare_to, bare_from) = member-names (norm n) entries in
    let (cases_to, cases_from) =
      three (member n names) (member (norm n) (map norm names)) (member (norm n) names) in
    rw (member-append (norm n) (map norm names) names) (
      λ h. elim (cases_to h) [
        | inl a ↦ let (k, e, at, (kept, same)) = plain_to a in (k, e, at, (kept, inl same))
        | inr (inl b) ↦
            let (k, e, at, (kept, same)) = norm_to b in (k, e, at, (kept, inr (inl same)))
        | inr (inr c) ↦
            let (k, e, at, (kept, same)) = bare_to c in (k, e, at, (kept, inr (inr same)))
      ],
      λ (k, e, at, (kept, how)). cases_from (elim how [
        | inl same ↦ inl (plain_from (k, e, at, (kept, same)))
        | inr (inl same) ↦ inr (inl (norm_from (k, e, at, (kept, same))))
        | inr (inr same) ↦ inr (inr (bare_from (k, e, at, (kept, same))))
      ]),
    )

member-head :
    (n x : Text) (p : Text → Bool) (xs : List Text)
    → text_eq n x ≡ true
    → member n (keep p xs) ≡ (member n xs && p n)
    → ((p x ≡ true) ⊎ (p x ≡ false))
    → member n (keep p (x ∷ xs)) ≡ (member n (x ∷ xs) && p n)
unfolding member
member-head n x p xs e later (inl kept) =
    let same : p n ≡ true = ap p ((text_eq_iff n x).0 e) ∙ kept in rw (kept, same) (rw e refl)
member-head n x p xs e later (inr out) =
    let same : p n ≡ false = ap p ((text_eq_iff n x).0 e) ∙ out in
    rw (out, e, same) (later ∙ last_false (member n xs) (p n) same)
  where
    last_false : (a b : Bool) → b ≡ false → (a && b) ≡ false
    last_false a b h = ground arith

pub member-keep :
    (n : Text) (p : Text → Bool) (xs : List Text) → member n (keep p xs) ≡ (member n xs && p n)
unfolding member
member-keep n p [] = refl
member-keep n p (x ∷ xs) = elim (Bool-cases (text_eq n x)) [
  | inl e ↦ member-head n x p xs e (member-keep n p xs) (Bool-cases (p x))
  | inr e ↦ elim (Bool-cases (p x)) [
    | inl kept ↦ rw (kept, e) (member-keep n p xs)
    | inr out ↦ rw (out, e) (member-keep n p xs)
  ]
]
