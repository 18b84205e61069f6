-- ===== src/Importer/Records/Balance.antt =====
-- Every row of a table is accounted for.
use libhw.Base.{
  >>=-eq-ok, Bool-cases, List, Option, Text, [], arith, fold_result, inl, inr, length,
  length-append, lookup, none, ok, ok-injective, or_else, refl, some, subst, ℕ, ◌+◌, ◌∙◌, ◌∷◌, ◌≡◌,
}
use libhw.Model.Kinds.{
  Classification, alias, architecture_defined, conditional_state, emitted_state, explicit_exclusion,
  non_state_operation,
}
use libhw.Model.Entry.{StateEntry, state_id}
use libhw.Pdf.Table.{Table}
use libhw.Importer.Rules.{Inputs, RawRecord, Rule}
use libhw.Importer.Access.{profile_access}
use libhw.Importer.Classify.{classify}
use libhw.Importer.Records.{
  Progress, Stats, add_at, add_named, add_reserved, import_record, is_reserved, repeat_entry, tally,
}

-- The rows that the counters of a table have counted.
abbrev pub total : Stats → ℕ
total s = s.emitted + s.conditional + s.alias_rows + s.architecture_rows + s.excluded + s.operation

pub total-tally : (c : Classification) (s : Stats) → total (tally c s) ≡ total s + 1
unfolding tally
total-tally emitted_state s = omega arith
total-tally architecture_defined s = omega arith
total-tally alias s = omega arith
total-tally non_state_operation s = omega arith
total-tally conditional_state s = omega arith
total-tally explicit_exclusion s = omega arith

-- One more entry and one more row counted; nothing that was there is lost.
abbrev pub Counted : Progress → Progress → Type 0
Counted p q =
    (total q.stats ≡ total p.stats + 1)
    × (length q.entries ≡ length p.entries + 1)
    × (q.stats.rows ≡ p.stats.rows)

rows-tally : (c : Classification) (s : Stats) → (tally c s).rows ≡ s.rows
unfolding tally
rows-tally emitted_state s = refl
rows-tally architecture_defined s = refl
rows-tally alias s = refl
rows-tally non_state_operation s = refl
rows-tally conditional_state s = refl
rows-tally explicit_exclusion s = refl

add_reserved-Counted : (e : StateEntry) (p : Progress) → Counted p (add_reserved e p)
unfolding add_reserved
add_reserved-Counted e p = (omega arith, length-append p.entries (e ∷ []), refl)

add_at-Counted :
    (tid name : Text) (e : StateEntry) (o : Option StateEntry) (p : Progress)
    → Counted p (add_at tid name e o p)
unfolding add_at
add_at-Counted tid name e none p = (
  total-tally e.classification p.stats,
  length-append p.entries (e ∷ []),
  rows-tally e.classification p.stats,
)
add_at-Counted tid name e (some first) p =
    (omega arith, length-append p.entries (repeat_entry tid name first e ∷ []), refl)

add_named-Counted :
    (tid name : Text) (e : StateEntry) (p : Progress) → Counted p (add_named tid name e p)
unfolding add_named
add_named-Counted tid name e p = add_at-Counted tid name e (lookup (state_id e) p.seen) p

-- A record that is imported is counted once and gives one entry, reserved or repeated as it may be.
pub import_record-Counted :
    (inp : Inputs) (tid : Text) (rule : Rule) (table : Table) (rec : RawRecord) (p q : Progress)
    → import_record inp tid rule table rec p ≡ ok q
    → Counted p q
unfolding import_record
import_record-Counted inp tid rule table rec p q h = elim (Bool-cases (is_reserved rec)) [
  | inl r ↦
      let (access, _, eq) = >>=-eq-ok (profile_access rule.profile) _ (rw r at h) in
      subst (Counted p) (ok-injective _ q eq) (add_reserved-Counted _ p)
  | inr n ↦
      let (v, _, rest) = >>=-eq-ok (classify inp rule (or_else rec.name []) rec) _ (rw n at h) in
      let (access, _, eq) = >>=-eq-ok (profile_access rule.profile) _ rest in
      subst (Counted p) (ok-injective _ q eq) (add_named-Counted tid (or_else rec.name []) _ p)
]

-- All records of a table.
pub import_records-counted :
    (inp : Inputs) (tid : Text) (rule : Rule) (table : Table) (recs : List RawRecord)
    → (p q : Progress) → fold_result (import_record inp tid rule table) recs p ≡ ok q
    → (total q.stats ≡ total p.stats + length recs)
      × (length q.entries ≡ length p.entries + length recs)
      × (q.stats.rows ≡ p.stats.rows)
unfolding fold_result
import_records-counted inp tid rule table [] p q h =
    subst
      (λ r.
        (total r.stats ≡ total p.stats + 0)
        × (length r.entries ≡ length p.entries + 0)
        × (r.stats.rows ≡ p.stats.rows))
      (ok-injective p q h) (omega arith, omega arith, refl)
import_records-counted inp tid rule table (rec ∷ recs) p q h =
    let (mid, first, rest) = >>=-eq-ok (import_record inp tid rule table rec p) _ h in
    let step = import_record-Counted inp tid rule table rec p mid first in
    let later = import_records-counted inp tid rule table recs mid q rest in
    (omega (arith, step.0, later.0), omega (arith, step.1, later.1), later.2 ∙ step.2)
