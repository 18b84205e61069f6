-- ===== src/Examples/Reviews.antt =====
-- The rules file of a small document, checked and seeded.
use libhw.Base.{
  Dict, List, [], codes, false, lookup, member, none, refl, some, text_eq, true, ◌↔◌, ◌∷◌, ◌≡◌,
}
use libhw.Pdf.Decisions.{ReviewedTable, check_rules, found_ids, seed}
use libhw.Pdf.Decisions.Current.{IsCurrent, check_rules_lem}
use libhw.Pdf.Decisions.Seeded.{Kept, seed-Kept}
use libhw.Pdf.Extract.{TableDecision}

abbrev decision : TableDecision
decision = record {
  table_id = codes "B3-4";
  caption = codes "Summary of SCB registers";
  section = [];
  page = 10;
  kept = false;
  reason = [];
  row_count = 0;
}

abbrev other_decision : TableDecision
other_decision = record decision { table_id = codes "B1-1" }

abbrev decisions : List TableDecision
decisions = decision ∷ other_decision ∷ []

abbrev kept_table : ReviewedTable
kept_table = record {
  caption = none;
  keep = some true;
  reason = some (codes "the block's registers");
  others = (codes "profile", codes "addr_name_type_reset") ∷ [];
}

abbrev reviewed_tables : Dict ReviewedTable
reviewed_tables = (codes "B3-4", kept_table) ∷ []

check_rules_lem_example :
    (check_rules (some reviewed_tables) (decision ∷ []) ≡ 0)
    ↔ IsCurrent reviewed_tables (decision ∷ [])
check_rules_lem_example = check_rules_lem reviewed_tables (decision ∷ [])

check_rules-current : check_rules (some reviewed_tables) (decision ∷ []) ≡ 0
unfolding check_rules text_eq
check_rules-current = refl

check_rules-undecided : check_rules (some reviewed_tables) decisions ≡ 1
unfolding check_rules text_eq
check_rules-undecided = refl

-- What was seeded is still to be reviewed.
check_rules-seeded : check_rules (some (seed reviewed_tables decisions)) decisions ≡ 1
unfolding check_rules seed text_eq
check_rules-seeded = refl

seed-Kept_example :
    (r : ReviewedTable) × (lookup (codes "B3-4") (seed reviewed_tables decisions) ≡ some r)
    × Kept kept_table r
seed-Kept_example =
    seed-Kept reviewed_tables decisions (codes "B3-4") kept_table (unfold lookup text_eq in refl)
      (unfold member text_eq found_ids in refl)
