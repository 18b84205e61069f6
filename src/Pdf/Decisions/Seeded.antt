-- ===== src/Pdf/Decisions/Seeded.antt =====
-- Seeding a rules file keeps the decisions that are reviewed.
use libhw.Base.{
  Bool, Bool-cases, Dict, List, Option-cases, Text, [], ap, arith, inl, inr, insert, lookup,
  lookup-insert, member, refl, some, sym, text_eq, text_eq_iff, true, ◌||◌, ◌∙◌, ◌∷◌, ◌≡◌, ◌⊎◌,
}
use libhw.Pdf.Decisions.{
  ReviewedTable, found_ids, insert_decision, seed, seed_entry, seed_tables, sorted_decisions,
  sorts_before, with_caption,
}
use libhw.Pdf.Extract.{TableDecision}

-- The decision with the caption filled in, if it had none.
abbrev pub Kept : ReviewedTable → ReviewedTable → Type 0
Kept prev r = (r.keep ≡ prev.keep) × (r.reason ≡ prev.reason) × (r.others ≡ prev.others)

with_caption-Kept : (caption : Text) (prev : ReviewedTable) → Kept prev (with_caption caption prev)
unfolding with_caption
with_caption-Kept caption prev = elim (Option-cases prev.caption) [
  | inl e ↦ rw e (refl, refl, refl)
  | inr (c, e) ↦ rw e (refl, refl, refl)
]

member-insert_decision :
    (tid : Text) (d : TableDecision) (ds : List TableDecision)
    → member tid (found_ids (insert_decision d ds))
      ≡ (text_eq tid d.table_id || member tid (found_ids ds))
unfolding insert_decision found_ids member
member-insert_decision tid d [] = refl
member-insert_decision tid d (e ∷ es) = elim (Bool-cases (sorts_before e.table_id d.table_id)) [
  | inl h ↦
      rw (h, member-insert_decision tid d es)
        (swap (text_eq tid e.table_id) (text_eq tid d.table_id) (member tid (found_ids es)))
  | inr h ↦ rw h refl
]
  where
    swap : (a b c : Bool) → (a || (b || c)) ≡ (b || (a || c))
    swap a b c = ground arith

member-sorted_decisions :
    (tid : Text) (ds : List TableDecision)
    → member tid (found_ids (sorted_decisions ds)) ≡ member tid (found_ids ds)
unfolding sorted_decisions found_ids member
member-sorted_decisions tid [] = refl
member-sorted_decisions tid (d ∷ ds) =
    member-insert_decision tid d (sorted_decisions ds)
    ∙ ap (λ b. text_eq tid d.table_id || b) (member-sorted_decisions tid ds)

module _ (existing : Dict ReviewedTable) (tid : Text) (prev : ReviewedTable)
    (there : lookup tid existing ≡ some prev) where
  abbrev HasKept : Dict ReviewedTable → Type 0
  HasKept tables = (r : ReviewedTable) × (lookup tid tables ≡ some r) × Kept prev r

  seed_entry-Kept : (d : TableDecision) → d.table_id ≡ tid → Kept prev (seed_entry existing d)
  unfolding seed_entry
  seed_entry-Kept d e =
      let found : lookup d.table_id existing ≡ some prev = rw e there in
      rw (found, seed_entry) (with_caption-Kept d.caption prev)

  insert-HasKept :
      (d : TableDecision) (tables : Dict ReviewedTable)
      → (text_eq d.table_id tid ≡ true) ⊎ HasKept tables
      → HasKept (insert d.table_id (seed_entry existing d) tables)
  insert-HasKept d tables h = elim (Bool-cases (text_eq d.table_id tid)) [
    | inl same ↦ (
      seed_entry existing d,
      lookup-insert d.table_id tid (seed_entry existing d) tables ∙ (rw same refl),
      seed_entry-Kept d ((text_eq_iff d.table_id tid).0 same),
    )
    | inr other ↦ elim h [
      | inl same ↦ absurd (cc (same, other))
      | inr (r, found, kept) ↦
          (r, lookup-insert d.table_id tid (seed_entry existing d) tables ∙ (rw other found), kept)
    ]
  ]

  seed_tables-HasKept :
      (ds : List TableDecision) (tables : Dict ReviewedTable)
      → (member tid (found_ids ds) ≡ true) ⊎ HasKept tables
      → HasKept (seed_tables existing ds tables)
  unfolding seed_tables found_ids member
  seed_tables-HasKept [] tables (inl h) = absurd (cc h)
  seed_tables-HasKept [] tables (inr h) = h
  seed_tables-HasKept (d ∷ ds) tables (inr h) =
      seed_tables-HasKept ds _ (inr (insert-HasKept d tables (inr h)))
  seed_tables-HasKept (d ∷ ds) tables (inl h) = elim (Bool-cases (text_eq tid d.table_id)) [
    | inl same ↦
        let own : text_eq d.table_id tid ≡ true =
          (text_eq_iff d.table_id tid).1 (sym ((text_eq_iff tid d.table_id).0 same)) in
        seed_tables-HasKept ds _ (inr (insert-HasKept d tables (inl own)))
    | inr other ↦ seed_tables-HasKept ds _ (inl (rw other at h))
  ]

-- Seeding keeps the reviewed decision on each table that the document still has: the flag, the reason
-- and the other keys stay as they are.
pub seed-Kept :
    (existing : Dict ReviewedTable) (ds : List TableDecision) (tid : Text) (prev : ReviewedTable)
    → lookup tid existing ≡ some prev
    → member tid (found_ids ds) ≡ true
    → (r : ReviewedTable) × (lookup tid (seed existing ds) ≡ some r) × Kept prev r
unfolding seed
seed-Kept existing ds tid prev there found =
    seed_tables-HasKept existing tid prev there (sorted_decisions ds) []
      (inl (member-sorted_decisions tid ds ∙ found))
