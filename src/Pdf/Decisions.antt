-- ===== src/Pdf/Decisions.antt =====
-- tools/state_tables.py: the reviewed decision on each table caption of a document.
pub mod Current
pub mod Seeded
use libhw.Base.{
  Bool, Dict, List, Option, Text, [], any, codes, false, has_key, if◌then◌else◌, insert, keys,
  length, lookup, ltb, map, member, none, not, or_else, some, text_lt, true, ℕ, ◌==◌, ◌||◌, ◌∷◌,
}
use libhw.Base.Regex.Texts.{contains}
use libhw.Pdf.Extract.{TableDecision}

-- One decision of a rules file, not empty. A key that is absent is `none`; `others` are the keys that
-- only the importer reads.
pub record ReviewedTable : Type 0 where
  pub caption : Option Text
  pub keep : Option Bool
  pub reason : Option Text
  pub others : Dict Text

-- `"UNREVIEWED" in str(r.get("reason", ""))`: the value `None` has the text "None", which does not have
-- the word, as the empty text has not.
unfoldable pub is_unreviewed : ReviewedTable → Bool
unfolding contains or_else
is_unreviewed r = contains (or_else r.reason []) (codes "UNREVIEWED")

-- `(d.table_id[0], len(d.table_id), d.table_id)`, compared
unfoldable pub sorts_before : Text → Text → Bool
unfolding text_lt
sorts_before [] b = true
sorts_before (x ∷ a) [] = false
sorts_before (x ∷ a) (y ∷ b) =
    if x == y
    then (if length a == length b then text_lt (x ∷ a) (y ∷ b) else ltb (length a) (length b))
    else ltb x y

unfoldable pub insert_decision : TableDecision → List TableDecision → List TableDecision
unfolding sorts_before
insert_decision d [] = d ∷ []
insert_decision d (e ∷ es) =
    if sorts_before e.table_id d.table_id then e ∷ insert_decision d es else d ∷ e ∷ es

unfoldable pub sorted_decisions : List TableDecision → List TableDecision
unfolding insert_decision
sorted_decisions [] = []
sorted_decisions (d ∷ ds) = insert_decision d (sorted_decisions ds)

-- `prev.setdefault("caption", d.caption)`
unfoldable pub with_caption : Text → ReviewedTable → ReviewedTable
with_caption caption r = elim r.caption [ none ↦ record r { caption = some caption } | some c ↦ r ]

unfoldable pub unreviewed : Text → ReviewedTable
unreviewed caption = record {
  caption = some caption;
  keep = some false;
  reason = some (codes "UNREVIEWED - a human must decide whether this is a register enumeration");
  others = [];
}

-- The decision on a caption: the one that is there, or one to be reviewed.
unfoldable pub seed_entry : Dict ReviewedTable → TableDecision → ReviewedTable
unfolding lookup with_caption unreviewed
seed_entry existing d = elim (lookup d.table_id existing) [
  | some prev ↦ with_caption d.caption prev
  | none ↦ unreviewed d.caption
]

unfoldable pub seed_tables :
    Dict ReviewedTable → List TableDecision → Dict ReviewedTable → Dict ReviewedTable
unfolding insert seed_entry
seed_tables existing [] tables = tables
seed_tables existing (d ∷ ds) tables =
    seed_tables existing ds (insert d.table_id (seed_entry existing d) tables)

-- The tables of the file that `seed` writes.
unfoldable pub seed : Dict ReviewedTable → List TableDecision → Dict ReviewedTable
unfolding seed_tables sorted_decisions
seed existing decisions = seed_tables existing (sorted_decisions decisions) []

unfoldable pub found_ids : List TableDecision → List Text
found_ids ds = map (λ (d : TableDecision). d.table_id) ds

-- `check`: 1 where there is no rules file, or where it is not current.
unfoldable pub check_rules : Option (Dict ReviewedTable) → List TableDecision → ℕ
unfolding has_key found_ids member is_unreviewed
check_rules none ds = 1
check_rules (some rules) ds =
    if any (λ tid. not (has_key tid rules)) (found_ids ds)
      || any (λ tid. not (member tid (found_ids ds))) (keys rules)
      || any (λ (k, r). is_unreviewed r) rules
    then 1
    else 0
