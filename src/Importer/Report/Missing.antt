-- ===== src/Importer/Report/Missing.antt =====
-- The cross-check against the document's index, and the array spellings that it folds.
use libhw.Base.{
  All, Bool, Bool-cases, List, Text, [], ap, arith, codes, false, inl, inr, is_digit, keep, member,
  refl, rstrip_by, true, ℕ, ◌&&◌, ◌++◌, ◌==◌, ◌||◌, ◌↔◌, ◌∷◌, ◌≡◌,
}
use libhw.Base.Regex.Patterns.{digits}
use libhw.Importer.Report.{
  crosscheck, drop_last, ends_in_placeholder, imported_names, index_names, is_missing, norm,
}
use libhw.Importer.Report.Covered.{IsCovered, is_missing-false, member-keep}
use libhw.Model.Entry.{StateEntry}
use libhw.Pdf.Table.{Table}

keep-nil {ℓ} :
    {A : Type ℓ} (p : A → Bool) (xs : List A) → (keep p xs ≡ []) ↔ All (λ x. p x ≡ false) xs
keep-nil p [] = (λ _. tt, λ _. refl)
keep-nil p (x ∷ xs) =
    let (to, from) = keep-nil p xs in
    elim (Bool-cases (p x)) [
      | inl e ↦ (λ h. absurd (cc (rw e at h)), λ h. absurd (cc (h.0, e)))
      | inr e ↦ (λ h. (e, to (rw e at h)), λ h. rw e (from h.1))
    ]

All-iff {ℓ κ μ} :
    {A : Type ℓ} {P : A → Type κ} {Q : A → Type μ}
    → ((x : A) → P x ↔ Q x)
    → (xs : List A) → All P xs ↔ All Q xs
All-iff f [] = (λ _. tt, λ _. tt)
All-iff f (x ∷ xs) =
    let (to, from) = All-iff f xs in (λ h. ((f x).0 h.0, to h.1), λ h. ((f x).1 h.0, from h.1))

both_left : (a b : Bool) → (a && b) ≡ true → a ≡ true
both_left a b h = ground arith

both_right : (a b : Bool) → (a && b) ≡ true → b ≡ true
both_right a b h = ground arith

both : (a b : Bool) → a ≡ true → (b ≡ false → ⊥) → (a && b) ≡ true
both true true _ _ = refl
both true false _ f = absurd (f refl)
both false b e _ = cc

-- The cross-check of a table reports a name as missing exactly when the index of the table lists it and no
-- entry of the import stands for it: none that is not an exclusion has that name, or the same name up to
-- the placeholder or the number at its end, or the name without that. So it reports nothing exactly when
-- the import covers the index.
pub crosscheck_lem :
    (entries : List StateEntry) (t : Table) (n : Text)
    → let missing = (crosscheck entries t).missing in
      let listed = index_names t.raw_lines [] in
      ((member n missing ≡ true) ↔ ((member n listed ≡ true) × (¬ IsCovered entries n)))
      × ((missing ≡ []) ↔ All (IsCovered entries) listed)
unfolding crosscheck
crosscheck_lem entries t n =
    let listed = index_names t.raw_lines [] in
    let p = is_missing (imported_names entries) in
    let (covers, uncovers) = is_missing-false entries n in
    let (to, from) = keep-nil p listed in
    let (down, up) = All-iff (is_missing-false entries) listed in
    (
      rw (member-keep n p listed) (
        λ h. (
          both_left (member n listed) (p n) h,
          λ c. cc (uncovers c, both_right (member n listed) (p n) h),
        ),
        λ (there, absent). both (member n listed) (p n) there (λ e. absent (covers e)),
      ),
      (λ h. down (to h), λ h. from (up h)),
    )

-- No digit at the end.
abbrev pub EndsPlain : Text → Type 0
EndsPlain [] = Unit
EndsPlain (c ∷ []) = is_digit c ≡ false
EndsPlain (c ∷ d ∷ s) = EndsPlain (d ∷ s)

rstrip_by-All : (s : Text) → All (λ c. is_digit c ≡ true) s → rstrip_by is_digit s ≡ []
unfolding rstrip_by
rstrip_by-All [] h = refl
rstrip_by-All (c ∷ s) h = rw (rstrip_by-All s h.1, h.0) refl

rstrip_by-digits :
    (base ds : Text)
    → EndsPlain base
    → All (λ c. is_digit c ≡ true) ds
    → rstrip_by is_digit (base ++ ds) ≡ base
unfolding rstrip_by
rstrip_by-digits [] ds e h = rstrip_by-All ds h
rstrip_by-digits (c ∷ []) ds e h = rw (rstrip_by-All ds h, e) refl
rstrip_by-digits (c ∷ d ∷ s) ds e h = rw (rstrip_by-digits (d ∷ s) ds e h) refl

ends_in_placeholder-snoc :
    (base : Text) (c : ℕ) → ends_in_placeholder (base ++ (c ∷ [])) ≡ (c == b'n' || c == b'x')
unfolding ends_in_placeholder
ends_in_placeholder-snoc [] c = refl
ends_in_placeholder-snoc (d ∷ []) c = refl
ends_in_placeholder-snoc (d ∷ e ∷ s) c = ends_in_placeholder-snoc (e ∷ s) c

drop_last-snoc : (base : Text) (c : ℕ) → drop_last (base ++ (c ∷ [])) ≡ base
unfolding drop_last
drop_last-snoc [] c = refl
drop_last-snoc (d ∷ []) c = refl
drop_last-snoc (d ∷ e ∷ s) c = ap (λ r. d ∷ r) (drop_last-snoc (e ∷ s) c)

ends_in_placeholder-digits :
    (base : Text) (d : ℕ) (ds : Text)
    → All (λ c. is_digit c ≡ true) (d ∷ ds)
    → ends_in_placeholder (base ++ (d ∷ ds)) ≡ false
unfolding ends_in_placeholder
ends_in_placeholder-digits [] d [] h = unfold is_digit in ground arith
ends_in_placeholder-digits [] d (e ∷ ds) h = ends_in_placeholder-digits [] e ds h.1
ends_in_placeholder-digits (b ∷ []) d ds h = ends_in_placeholder-digits [] d ds h
ends_in_placeholder-digits (b ∷ c ∷ s) d ds h = ends_in_placeholder-digits (c ∷ s) d ds h

-- For a stem that does not end in a digit, the three spellings of an array, with `n`, with `x` and
-- with a number, have the same normal form: the stem.
pub norm-array :
    (base : Text) (d : ℕ) (ds : Text)
    → EndsPlain base
    → All (λ c. is_digit c ≡ true) (d ∷ ds)
    → (norm (base ++ codes "n") ≡ base)
      × (norm (base ++ codes "x") ≡ base)
      × (norm (base ++ (d ∷ ds)) ≡ base)
unfolding norm
norm-array base d ds plain digits = (
  rw (ends_in_placeholder-snoc base b'n') (drop_last-snoc base b'n'),
  rw (ends_in_placeholder-snoc base b'x') (drop_last-snoc base b'x'),
  rw (ends_in_placeholder-digits base d ds digits) (rstrip_by-digits base (d ∷ ds) plain digits),
)
