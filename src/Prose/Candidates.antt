-- ===== src/Prose/Candidates.antt =====
-- tools/state_prose_candidates.py: the review of the candidates of a scan. Printing is left out, but the
-- counts that are printed are not.
pub mod Loop
pub mod Seeded
pub mod Reviewed
pub mod Status
use Prim.Native.String.{String}
use libhw.Base.{
  Bool, Dict, List, Option, Text, [], codes, count_up, false, if◌then◌else◌, lookup, member, none,
  not, or_else, set_default, some, true, ℕ, ◌&&◌, ◌++◌, ◌∷◌,
}
use libhw.Prose.Classify.{Decision, Vocabulary, auto_classify, valid}
use libhw.Prose.Patterns.{Kind, range, through}
use libhw.Prose.Scan.{ProseCandidate}
use libhw.Sources.Lock.{is_empty}

-- An entry of a review file that is not empty. A key that is absent is `none`, and a null class is too.
pub record Review : Type 0 where
  pub raw : Option Text
  pub section : Option Text
  pub page : Option ℕ
  pub context : Option Text
  pub names : Option (List Text)
  pub class : Option Text
  pub reason : Option Text

-- The entries of a review file; a value that is null or empty is `none`.
abbrev pub Reviews : Type 0
Reviews = Dict (Option Review)

pub record CandidateRow : Type 0 where
  pub cid : Text
  pub kind : Kind
  pub raw : Text
  pub names : List Text
  pub section : Text
  pub page : ℕ
  pub context : Text
  pub classification : Option Text
  pub reason : Text
  pub resolved_by : Text

-- `reviewed.get(c.cid)`, where it is not empty
unfoldable pub review_of : Reviews → Text → Option Review
unfolding lookup
review_of reviewed cid = elim (lookup cid reviewed) [ none ↦ none | some r ↦ r ]

unfoldable pub row_of : ProseCandidate → Option Text → Text → String → CandidateRow
row_of c class reason how = record {
  cid = c.cid;
  kind = c.kind;
  raw = c.raw;
  names = c.names;
  section = c.section;
  page = c.page;
  context = c.context;
  classification = class;
  reason = reason;
  resolved_by = codes how;
}

unfoldable pub reviewed_row : ProseCandidate → Review → CandidateRow
unfolding row_of
reviewed_row c r = row_of c r.class (elim r.reason [ none ↦ [] | some t ↦ t ]) "reviewed"

unfoldable pub auto_row : ProseCandidate → Option Decision → CandidateRow
unfolding row_of
auto_row c none = row_of c none [] "-"
auto_row c (some (class, reason)) = row_of c (some class) reason "auto"

unfoldable pub classified : Vocabulary → Reviews → ProseCandidate → CandidateRow
unfolding review_of reviewed_row auto_row auto_classify
classified v reviewed c = elim (review_of reviewed c.cid) [
  | some r ↦ reviewed_row c r
  | none ↦ auto_row c (auto_classify v c)
]

-- `kind is not None and kind not in VALID`
unfoldable pub is_invalid : Option Text → Bool
unfolding member
is_invalid none = false
is_invalid (some class) = not (member class valid)

unfoldable pub has_no_class : Option Text → Bool
has_no_class none = true
has_no_class (some class) = false

unfoldable pub is_range_kind : Kind → Bool
is_range_kind range = true
is_range_kind through = true
is_range_kind _ = false

-- The three lists that the loop fills.
pub record Lists : Type 0 where
  pub rows : List CandidateRow
  pub unclassified : List ProseCandidate
  pub unresolved_ranges : List ProseCandidate

unfoldable pub advance : ProseCandidate → CandidateRow → Lists → Lists
unfolding has_no_class is_range_kind
advance c r p = record {
  rows = p.rows ++ (r ∷ []);
  unclassified =
      if has_no_class r.classification then p.unclassified ++ (c ∷ []) else p.unclassified;
  unresolved_ranges =
      if is_range_kind c.kind && has_no_class r.classification
      then p.unresolved_ranges ++ (c ∷ [])
      else p.unresolved_ranges;
}

-- The loop over the candidates; `none` where it returns 2 at a class that is not valid.
unfoldable pub classify_all : Vocabulary → Reviews → List ProseCandidate → Lists → Option Lists
unfolding classified is_invalid advance
classify_all v reviewed [] p = some p
classify_all v reviewed (c ∷ cs) p =
    let r = classified v reviewed c in
    let rest = classify_all v reviewed cs (advance c r p) in
    if is_invalid r.classification then none else rest

unfoldable pub to_review : ProseCandidate → Review
to_review c = record {
  raw = some c.raw;
  section = some c.section;
  page = some c.page;
  context = some c.context;
  names = some c.names;
  class = none;
  reason = some (
      codes
        "UNREVIEWED - classify as state/alias/field/block_name/covered_family/already_covered/false_positive");
}

-- `existing.setdefault(c.cid, {...})`, for each candidate without a class
unfoldable pub seed_reviews : List ProseCandidate → Reviews → Reviews
unfolding set_default to_review
seed_reviews [] existing = existing
seed_reviews (c ∷ cs) existing = seed_reviews cs (set_default c.cid (some (to_review c)) existing)

-- `by_class`
unfoldable pub count_classes : List CandidateRow → Dict ℕ → Dict ℕ
unfolding count_up or_else
count_classes [] d = d
count_classes (r ∷ rs) d =
    count_classes rs (count_up (or_else r.classification (codes "UNCLASSIFIED")) d)

-- What a run returns and leaves: the status, the review file and the artifact that it writes, and the
-- counts that it prints.
pub record Run : Type 0 where
  pub status : ℕ
  pub reviews : Option Reviews
  pub artifact : Option (List CandidateRow)
  pub by_class : Dict ℕ

unfoldable pub no_lists : Lists
no_lists = record { rows = []; unclassified = []; unresolved_ranges = [] }

abbrev pub fail_if : Bool → ℕ
fail_if true = 1
fail_if false = 0

unfoldable pub finish : Bool → Reviews → Lists → Run
unfolding seed_reviews count_classes is_empty
finish true reviewed p = record {
  status = 0;
  reviews = some (seed_reviews p.unclassified reviewed);
  artifact = none;
  by_class = [];
}
finish false reviewed p = record {
  status = fail_if (not (is_empty p.unclassified));
  reviews = none;
  artifact = some p.rows;
  by_class = count_classes p.rows [];
}

-- `return 2`, at a class that is not valid
unfoldable pub refused : Run
refused = record { status = 2; reviews = none; artifact = none; by_class = [] }

-- `run(target, seed)`, from the candidates on
unfoldable pub run_candidates : Vocabulary → Reviews → List ProseCandidate → Bool → Run
unfolding classify_all no_lists finish refused
run_candidates v reviewed cands seeding = elim (classify_all v reviewed cands no_lists) [
  | none ↦ refused
  | some p ↦ finish seeding reviewed p
]
