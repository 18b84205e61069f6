-- ===== src/Importer/Report.antt =====
-- The checks at the end of `import_target` in tools/state/importer.py: the cross-check against the
-- document's own index, the totals, and the exclusions without a reason.
pub mod Totals
pub mod Covered
pub mod Missing
use libhw.Base.{
  Bool, List, Option, Result, Text, [], codes, drop, err, false, if◌then◌else◌, is_digit, is_lower,
  is_space, is_upper, keep, leb, length, map, member, none, not, ok, rstrip_by, some, source_error,
  text_eq, true, truthy, ℕ, ◌&&◌, ◌++◌, ◌+◌, ◌-◌, ◌==◌, ◌||◌, ◌∷◌,
}
use libhw.Pdf.Table.{Table, label}
use libhw.Model.Kinds.{
  Classification, alias, architecture_defined, conditional_state, emitted_state, explicit_exclusion,
  non_state_operation, same_class,
}
use libhw.Model.Entry.{StateEntry}

-- The longest prefix that the test accepts.
unfoldable pub take_while : (ℕ → Bool) → Text → Text
take_while p [] = []
take_while p (c ∷ s) = if p c then c ∷ take_while p s else []

-- Ends a text in one lowercase placeholder?
unfoldable pub ends_in_placeholder : Text → Bool
ends_in_placeholder [] = false
ends_in_placeholder (c ∷ []) = c == b'n' || c == b'x'
ends_in_placeholder (c ∷ d ∷ s) = ends_in_placeholder (d ∷ s)

unfoldable pub drop_last : Text → Text
drop_last [] = []
drop_last (c ∷ []) = []
drop_last (c ∷ d ∷ s) = c ∷ drop_last (d ∷ s)

-- `norm`: `re.sub(r"(?:[nx]|\d+)$", "", n)` on an ASCII name with no line break.
unfoldable pub norm : Text → Text
unfolding ends_in_placeholder drop_last rstrip_by is_digit
norm n = if ends_in_placeholder n then drop_last n else rstrip_by is_digit n

unfoldable pub is_word : ℕ → Bool
unfolding is_upper is_lower is_digit
is_word c = is_upper c || is_lower c || is_digit c || c == b'_'

unfoldable pub starts_upper : Text → Bool
unfolding is_upper
starts_upper [] = false
starts_upper (c ∷ s) = is_upper c

-- `_INDEX_NAME_RE` at the start of a line: two blanks or more, a name of 2 to 31 characters that
-- begins with a capital, two blanks or more, and something.
unfoldable pub index_name : Text → Option Text
unfolding take_while is_space is_word starts_upper text_eq
index_name line =
    let blanks = take_while is_space line in
    let rest = drop (length blanks) line in
    let name = take_while is_word rest in
    let after = drop (length name) rest in
    let gap = take_while is_space after in
    if leb 2 (length blanks)
      && starts_upper name
      && leb 2 (length name)
      && leb (length name) 31
      && leb 2 (length gap)
      && not (text_eq (drop (length gap) after) [])
    then some name
    else none

unfoldable pub set_add : Text → List Text → List Text
unfolding member
set_add x xs = if member x xs then xs else xs ++ (x ∷ [])

abbrev pub index_headings : List Text
index_headings =
    codes "Register"
    ∷ codes "Registera"
    ∷ codes "See"
    ∷ codes "Notes"
    ∷ codes "Description"
    ∷ codes "Table"
    ∷ []

-- `_index_names`, as a list without repeats.
unfoldable pub index_names : List (ℕ × Text) → List Text → List Text
unfolding index_name member set_add
index_names [] names = names
index_names ((pg, line) ∷ lines) names = index_names lines (elim (index_name line) [
  | none ↦ names
  | some n ↦ if member n index_headings then names else set_add n names
])

-- `{e.canonical_name for e in entries if …}`, as a list.
unfoldable pub imported_names : List StateEntry → List Text
unfolding same_class
imported_names entries =
    map (λ e. e.canonical_name)
      (keep (λ e. not (same_class e.classification explicit_exclusion)) entries)

pub record Crosscheck : Type 0 where
  pub caption : Text
  pub index_entries : ℕ
  pub present : ℕ
  pub missing : List Text

unfoldable pub is_missing : List Text → Text → Bool
unfolding member norm
is_missing imported n =
    not (member n imported) && not (member (norm n) (map norm imported ++ imported))

-- `missing` is not sorted here: the order of a report is not modelled.
unfoldable pub crosscheck : List StateEntry → Table → Crosscheck
unfolding index_names imported_names is_missing label
crosscheck entries t =
    let idx = index_names t.raw_lines [] in
    let missing = keep (is_missing (imported_names entries)) idx in
    record {
      caption = label t;
      index_entries = length idx;
      present = length idx - length missing;
      missing = missing;
    }

-- `report.counts`
pub record Counts : Type 0 where
  pub emitted_count : ℕ
  pub architecture_count : ℕ
  pub alias_count : ℕ
  pub operation_count : ℕ
  pub conditional_count : ℕ
  pub exclusion_count : ℕ

abbrev pub no_counts : Counts
no_counts = record {
  emitted_count = 0;
  architecture_count = 0;
  alias_count = 0;
  operation_count = 0;
  conditional_count = 0;
  exclusion_count = 0;
}

-- `counts[e.classification.value] += 1`
unfoldable pub bump : Classification → Counts → Counts
bump emitted_state c = record c { emitted_count = c.emitted_count + 1 }
bump architecture_defined c = record c { architecture_count = c.architecture_count + 1 }
bump alias c = record c { alias_count = c.alias_count + 1 }
bump non_state_operation c = record c { operation_count = c.operation_count + 1 }
bump conditional_state c = record c { conditional_count = c.conditional_count + 1 }
bump explicit_exclusion c = record c { exclusion_count = c.exclusion_count + 1 }

unfoldable pub count_entries : List StateEntry → Counts → Counts
unfolding bump
count_entries [] c = c
count_entries (e ∷ es) c = count_entries es (bump e.classification c)

unfoldable pub sum_counts : Counts → ℕ
sum_counts c =
    c.emitted_count + c.architecture_count + c.alias_count + c.operation_count + c.conditional_count
    + c.exclusion_count

unfoldable pub needs_reason : Classification → Bool
needs_reason non_state_operation = true
needs_reason explicit_exclusion = true
needs_reason _ = false

-- `report.unclassified`, by the names in it.
unfoldable pub without_reason : List StateEntry → List Text
unfolding needs_reason truthy
without_reason entries =
    map (λ e. e.canonical_name)
      (keep (λ e. needs_reason e.classification && not (truthy e.reason)) entries)

-- `if total != len(entries): raise SourceError`
unfoldable pub check_total : List StateEntry → Result Counts
unfolding count_entries sum_counts
check_total entries =
    let counts = count_entries entries no_counts in
    if sum_counts counts == length entries then ok counts else err source_error
