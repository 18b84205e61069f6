-- ===== src/Importer/Report/Totals.antt =====
-- The totals of an import agree with its entries.
use libhw.Base.{
  All, Bool-cases, List, [], arith, inl, inr, length, not, ok, refl, true, truthy, ◌&&◌, ◌+◌, ◌↔◌,
  ◌∷◌, ◌≡◌,
}
use libhw.Model.Kinds.{
  Classification, alias, architecture_defined, conditional_state, emitted_state, explicit_exclusion,
  non_state_operation,
}
use libhw.Model.Entry.{StateEntry}
use libhw.Importer.Report.{
  Counts, bump, check_total, count_entries, needs_reason, no_counts, sum_counts, without_reason,
}

sum_counts-bump : (k : Classification) (c : Counts) → sum_counts (bump k c) ≡ sum_counts c + 1
unfolding sum_counts bump
sum_counts-bump emitted_state c = omega arith
sum_counts-bump architecture_defined c = omega arith
sum_counts-bump alias c = omega arith
sum_counts-bump non_state_operation c = omega arith
sum_counts-bump conditional_state c = omega arith
sum_counts-bump explicit_exclusion c = omega arith

sum_counts-count_entries :
    (es : List StateEntry) (c : Counts) → sum_counts (count_entries es c) ≡ sum_counts c + length es
unfolding count_entries
sum_counts-count_entries [] c = omega arith
sum_counts-count_entries (e ∷ es) c = omega (
  arith,
  sum_counts-count_entries es (bump e.classification c),
  sum_counts-bump e.classification c,
)

sum_counts-no_counts : sum_counts no_counts ≡ 0
unfolding sum_counts
sum_counts-no_counts = refl

-- The classification totals always agree with the number of entries: the last check of the import
-- never raises, and returns the counts.
pub check_total_ok : (es : List StateEntry) → check_total es ≡ ok (count_entries es no_counts)
unfolding check_total
check_total_ok es = ground (arith, sum_counts-count_entries es no_counts, sum_counts-no_counts)

-- A non-state operation and an exclusion have a reason that is not empty.
abbrev pub HasReason : StateEntry → Type 0
HasReason e = needs_reason e.classification ≡ true → truthy e.reason ≡ true

-- The report lists no entry exactly when every non-state operation and every exclusion has a reason
-- that is not empty.
pub without_reason-nil : (es : List StateEntry) → (without_reason es ≡ []) ↔ All HasReason es
unfolding without_reason
without_reason-nil [] = (λ _. tt, λ _. refl)
without_reason-nil (e ∷ es) =
    let (to, from) = without_reason-nil es in
    elim (Bool-cases (needs_reason e.classification && not (truthy e.reason))) [
      | inl bad ↦ (λ h. absurd (cc (rw bad at h)), λ h. absurd (ground (arith, h.0)))
      | inr good ↦ (λ h. (λ n. ground arith, to (rw good at h)), λ h. rw good (from h.1))
    ]
