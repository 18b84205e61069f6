-- ===== src/Pdf/Decisions/Current.antt =====
-- What the check of a rules file establishes, and what seeding keeps.
use libhw.Base.{
  All, All-mono, Bool, Dict, List, [], any, any-false, arith, codes, false, has_key, if◌then◌else◌,
  keys, member, not, not-false, or_else, refl, some, true, ℕ, ◌||◌, ◌↔◌, ◌≡◌,
}
use libhw.Base.Regex.Texts.{contains}
use libhw.Pdf.Decisions.{ReviewedTable, check_rules, found_ids, is_unreviewed}
use libhw.Pdf.Extract.{TableDecision}

not-any {ℓ} :
    {A : Type ℓ} (p : A → Bool) (xs : List A)
    → (any (λ x. not (p x)) xs ≡ false) ↔ All (λ x. p x ≡ true) xs
not-any p xs =
    let (to, from) = any-false (λ x. not (p x)) xs in
    (
      λ h. All-mono (λ x. (not-false (p x)).0) xs (to h),
      λ h. from (All-mono (λ x. (not-false (p x)).1) xs h),
    )

-- Each table that was found has a decision, each decision is on one of them, and no reason holds the word.
abbrev pub IsCurrent : Dict ReviewedTable → List TableDecision → Type 0
IsCurrent rules ds =
    All (λ tid. has_key tid rules ≡ true) (found_ids ds)
    × All (λ tid. member tid (found_ids ds) ≡ true) (keys rules)
    × All (λ (k, r). contains (or_else r.reason []) (codes "UNREVIEWED") ≡ false) rules

abbrev status : Bool → ℕ
status b = if b then 1 else 0

status_zero :
    (a b c : Bool) → (status (a || b || c) ≡ 0) ↔ ((a ≡ false) × (b ≡ false) × (c ≡ false))
status_zero true b c = (λ h. absurd (omega arith), λ h. absurd (cc h.0))
status_zero false true c = (λ h. absurd (omega arith), λ h. absurd (cc h.1))
status_zero false false true = (λ h. absurd (omega arith), λ h. absurd (cc h.2))
status_zero false false false = (λ _. (refl, refl, refl), λ _. refl)

-- The check of a rules file returns 0 exactly when the file decides on each table of the document and
-- on no other, and none of its decisions is still to be reviewed.
pub check_rules_lem :
    (rules : Dict ReviewedTable) (ds : List TableDecision)
    → (check_rules (some rules) ds ≡ 0) ↔ IsCurrent rules ds
unfolding check_rules is_unreviewed
check_rules_lem rules ds =
    let (zero_to, zero_from) =
      status_zero (any (λ tid. not (has_key tid rules)) (found_ids ds))
        (any (λ tid. not (member tid (found_ids ds))) (keys rules))
        (any (λ (k, r). is_unreviewed r) rules) in
    let (found_to, found_from) = not-any (λ tid. has_key tid rules) (found_ids ds) in
    let (decided_to, decided_from) = not-any (λ tid. member tid (found_ids ds)) (keys rules) in
    let (done_to, done_from) = any-false (λ (k, r). is_unreviewed r) rules in
    (
      λ h. (found_to (zero_to h).0, decided_to (zero_to h).1, done_to (zero_to h).2),
      λ h. zero_from (found_from h.0, decided_from h.1, done_from h.2),
    )
