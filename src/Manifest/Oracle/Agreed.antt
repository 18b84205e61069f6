-- ===== src/Manifest/Oracle/Agreed.antt =====
-- What the check against the assembler establishes.
use libhw.Base.{
  required_at, ==_iff, >>=-eq-ok, All, Bool, Bool-cases, List, Option, Option-cases, Text, [], ap,
  arith, false, fold_result, if◌then◌else◌, inl, inr, keep, length, length-append, none, ok,
  ok-injective, refl, require, some, subst, true, value_error, ℕ, ◌++◌, ◌+◌, ◌==◌, ◌∷◌, ◌≡◌, ◌⊎◌,
}
use libhw.Base.Numeral.{int_10}
use libhw.Base.Regex.Texts.{lower}
use libhw.Manifest.Oracle.{
  Tally, check_entries, check_entry, compare_sysm, mismatch, no_tally, oracle_status, sysm_digits,
}
use libhw.Model.Entry.{ManifestEntry}
use libhw.Sources.Lock.{is_empty}

-- The entry is no special register, or the assembler does not take its name, or both have one field.
abbrev pub IsConfirmed : (Text → Option ℕ) → ManifestEntry → Type 0
IsConfirmed assemble e =
    (sysm_digits e ≡ none)
    ⊎ (assemble (lower e.canonical_name) ≡ none)
    ⊎ ((ds : Text) × (n : ℕ) × (sysm_digits e ≡ some ds)
        × (int_10 ds ≡ some n)
        × (assemble (lower e.canonical_name) ≡ some n))

-- Each checked register agrees or is a mismatch.
abbrev pub IsBalancedTally : Tally → Type 0
IsBalancedTally t = t.checked ≡ t.agreed + length t.mismatches

is_empty-snoc : (xs : List Text) (x : Text) → is_empty (xs ++ (x ∷ [])) ≡ false
unfolding is_empty
is_empty-snoc [] x = refl
is_empty-snoc (y ∷ xs) x = refl

compare_sysm-balance :
    (tool name : Text) (ours : ℕ) (theirs : Option ℕ) (t : Tally)
    → IsBalancedTally t
    → IsBalancedTally (compare_sysm tool name ours theirs t)
unfolding compare_sysm
compare_sysm-balance tool name ours none t h = h
compare_sysm-balance tool name ours (some n) t h = elim (Bool-cases (n == ours)) [
  | inl e ↦ rw e (omega (arith, h))
  | inr e ↦ rw e (omega (arith, h, length-append t.mismatches (mismatch tool name ours n ∷ [])))
]

-- No mismatch behind a register means none before it, and that the register agrees.
compare_sysm-quiet :
    (tool name : Text) (ours : ℕ) (theirs : Option ℕ) (t : Tally)
    → is_empty (compare_sysm tool name ours theirs t).mismatches ≡ true
    → (is_empty t.mismatches ≡ true) × ((theirs ≡ none) ⊎ (theirs ≡ some ours))
unfolding compare_sysm
compare_sysm-quiet tool name ours none t h = (h, inl refl)
compare_sysm-quiet tool name ours (some n) t h = elim (Bool-cases (n == ours)) [
  | inl e ↦ (rw e at h, inr (ap some ((==_iff n ours).0 e)))
  | inr e ↦ absurd (cc (rw e at h, is_empty-snoc t.mismatches (mismatch tool name ours n)))
]

length-is_empty_zero : (xs : List Text) → is_empty xs ≡ true → length xs ≡ 0
unfolding is_empty
length-is_empty_zero [] h = refl
length-is_empty_zero (x ∷ xs) h = cc

abbrev status : Bool → ℕ
status b = if b then 0 else 1

status_zero : (b : Bool) → status b ≡ 0 → b ≡ true
status_zero true h = refl
status_zero false h = absurd (omega arith)

module _ (tool : Text) (assemble : Text → Option ℕ) where
  abbrev Step : ManifestEntry → Tally → Tally → Type 0
  Step e s t =
      (IsBalancedTally s → IsBalancedTally t)
      × (is_empty t.mismatches ≡ true → (is_empty s.mismatches ≡ true) × IsConfirmed assemble e)

  check_entry-Step :
      (e : ManifestEntry) (s t : Tally) → check_entry tool assemble e s ≡ ok t → Step e s t
  unfolding check_entry
  check_entry-Step e s t h = elim (Option-cases (sysm_digits e)) [
    | inl absent ↦
        subst (Step e s) (ok-injective s t (rw (absent, check_entry) at h))
          (λ b. b, λ q. (q, inl absent))
    | inr (ds, given) ↦
        let (ours, read, eq) =
          >>=-eq-ok (require (int_10 ds) value_error) _ (rw (given, check_entry) at h) in
        let theirs = assemble (lower e.canonical_name) in
        subst (Step e s) (ok-injective _ t eq) (
          compare_sysm-balance tool e.canonical_name ours theirs s,
          λ q.
              let (before, agrees) = compare_sysm-quiet tool e.canonical_name ours theirs s q in
              (before, confirmed e ds ours given (required_at _ value_error read) agrees),
        )
  ]
    where
      confirmed :
          (e : ManifestEntry) (ds : Text) (n : ℕ)
          → sysm_digits e ≡ some ds
          → int_10 ds ≡ some n
          → (assemble (lower e.canonical_name) ≡ none)
            ⊎ (assemble (lower e.canonical_name) ≡ some n)
          → IsConfirmed assemble e
      confirmed e ds n given read (inl gone) = inr (inl gone)
      confirmed e ds n given read (inr same) = inr (inr (ds, n, given, read, same))

  check_loop :
      (es : List ManifestEntry) (s t : Tally)
      → fold_result (check_entry tool assemble) es s ≡ ok t
      → (IsBalancedTally s → IsBalancedTally t)
        × (is_empty t.mismatches ≡ true
            → (is_empty s.mismatches ≡ true) × All (IsConfirmed assemble) es)
  unfolding fold_result
  check_loop [] s t h =
      subst
        (λ u.
          (IsBalancedTally s → IsBalancedTally u)
          × (is_empty u.mismatches ≡ true → (is_empty s.mismatches ≡ true) × Unit {0}))
        (ok-injective s t h) (λ b. b, λ q. (q, tt))
  check_loop (e ∷ es) s t h =
      let (mid, first, rest) =
        >>=-eq-ok (check_entry tool assemble e s) (fold_result (check_entry tool assemble) es) h in
      let (keeps, quiet) = check_loop es mid t rest in
      let (keep, one) = check_entry-Step e s mid first in
      (
        λ b. keeps (keep b),
        λ q. let (before, others) = quiet q in ((one before).0, ((one before).1, others)),
      )

-- If the check of the encodings returns status 0, then of each special register whose name the
-- assembler takes, the assembler emits the field that the manifest has, and all that was checked
-- agrees.
pub check_entries_lem :
    (tool : Text) (assemble : Text → Option ℕ) (es : List ManifestEntry) (t : Tally)
    → check_entries tool assemble es ≡ ok t
    → oracle_status t ≡ 0
    → All (IsConfirmed assemble) es × (t.checked ≡ t.agreed)
unfolding check_entries no_tally
check_entries_lem tool assemble es t h zero_status =
    let (keeps, quiet) = check_loop tool assemble es no_tally t h in
    let clean = status_zero (is_empty t.mismatches) (unfold oracle_status in zero_status) in
    ((quiet clean).1, omega (arith, keeps (omega arith), length-is_empty_zero t.mismatches clean))
