-- ===== src/Examples/Prose.antt =====
-- A small manual: the scan of its prose, the review of the candidates, and the sweep of its headings.
use libhw.Base.{
  All, Bool-cases, List, Option, Text, [], all, any, codes, count, false, if◌then◌else◌, inl, inr,
  length, map, member, none, ok, refl, some, starts_with, text_eq, true, ◌↔◌, ◌∷◌, ◌≡◌, ◌≤◌,
}
use libhw.Base.Regex.Iterate.{finditer}
use libhw.Examples.Documents.{lock, machine, raw_source}
use libhw.Prose.Candidates.{CandidateRow, Reviews, run_candidates}
use libhw.Prose.Candidates.Reviewed.{completed, seed_reviews-completed}
use libhw.Prose.Candidates.Seeded.{seed_reviews-status}
use libhw.Prose.Candidates.Status.{IsDecided, has_bad_review, run_candidates-two}
use libhw.Prose.Classify.{Vocabulary, valid}
use libhw.Prose.Patterns.{Kind, comma_set, range}
use libhw.Prose.Scan.{ProseCandidate, scan}
use libhw.Prose.Scan.Bounds.{IsCandidate}
use libhw.Prose.Scan.Unique.{scan-IsCandidate, scan_unique}
use libhw.Prose.Summary.{prose_summary, prose_summary-status}
use libhw.Prose.Sweep.{key_of, sweep_known, sweep_section_re, sweep_status}
use libhw.Prose.Sweep.Accounted.{is_accounted, sweep_status-zero}
use libhw.Prose.Target.{Services, candidates_main, candidates_main-zero, pages_of, vocabulary_of}
use libhw.Sources.Lock.{Lock}

abbrev page : Text
page =
    codes
      "A1.1 Introduction to the core\nA2.5 Registers of the core\nThe registers S0-S7 and R0-R12, and R0, R1, R2.\nB3.2.3 CPUID Base Register, CPUID\n"

abbrev small_page : Text
small_page = codes "The S0-S7 and R0-R12."

-- The digest is the text itself.
abbrev candidate : Kind → Text → List Text → ProseCandidate
candidate kind raw names = record {
  cid = raw;
  kind = kind;
  raw = raw;
  names = names;
  section = codes "A2.5 Registers";
  page = 2;
  context = raw;
}

abbrev cands : List ProseCandidate
cands =
    candidate comma_set (codes "R0, R1") (codes "R0" ∷ codes "R1" ∷ [])
    ∷ candidate range (codes "S0-S1") (codes "S0" ∷ codes "S1" ∷ [])
    ∷ []

-- `R0-R12` is no candidate: the second name takes the digit that would make the bound 12.
scanned : map (λ (c : ProseCandidate). c.raw) (scan (λ s. s) (small_page ∷ [])) ≡ codes "S0-S7" ∷ []
unfolding scan text_eq
scanned = refl

scan-IsCandidate_example : All (IsCandidate (λ s. s)) (scan (λ s. s) (page ∷ []))
scan-IsCandidate_example = scan-IsCandidate (λ s. s) (page ∷ [])

scan_unique_example :
    count (λ c. text_eq c.cid (codes "range:S0-S7")) (scan (λ s. s) (page ∷ [])) ≤ 1
scan_unique_example = scan_unique (λ s. s) (page ∷ []) (codes "range:S0-S7")

abbrev vocabulary : Vocabulary
vocabulary = record {
  known = codes "R0" ∷ codes "R1" ∷ [];
  families = [];
  mnemonics = [];
  fields = [];
  front_matter = 0;
}

run_candidates-two_example :
    ((run_candidates vocabulary [] cands true).status ≡ 2) ↔ (any (has_bad_review []) cands ≡ true)
run_candidates-two_example = run_candidates-two vocabulary [] cands true

-- One candidate is classified by its names, the other is left.
left_over : (run_candidates vocabulary [] cands false).status ≡ 1
unfolding run_candidates text_eq
left_over = refl

abbrev no_rows : List CandidateRow
no_rows = []

abbrev rows_of : Option (List CandidateRow) → List CandidateRow
rows_of none = no_rows
rows_of (some rows) = rows

abbrev reviews_of : Option Reviews → Reviews
reviews_of none = []
reviews_of (some r) = r

abbrev seeded : Reviews
unfolding run_candidates
seeded = reviews_of (run_candidates vocabulary [] cands true).reviews

seed_reviews-status_example :
    (run_candidates vocabulary seeded cands false).status
    ≡ (run_candidates vocabulary [] cands false).status
seed_reviews-status_example =
    seed_reviews-status vocabulary [] seeded cands (unfold run_candidates text_eq in refl)

abbrev rows : List CandidateRow
unfolding run_candidates
rows = rows_of (run_candidates vocabulary [] cands false).artifact

prose_summary-status_example :
    ((prose_summary rows).total ≡ length cands)
    × (((run_candidates vocabulary [] cands false).status ≡ 0)
        ↔ ((prose_summary rows).unclassified ≡ 0))
prose_summary-status_example =
    prose_summary-status vocabulary [] cands rows (unfold run_candidates text_eq in refl)

sweep_status-zero_example : (sweep_status page (codes "CPUID" ∷ []) [] ≡ 0) ↔ (
    all
      (is_accounted (sweep_known (codes "CPUID" ∷ [])) [])
      (map key_of (finditer sweep_section_re page))
    ≡ true)
sweep_status-zero_example = sweep_status-zero page (codes "CPUID" ∷ []) []

swept : sweep_status page (codes "CPUID" ∷ []) [] ≡ 0
unfolding sweep_status text_eq
swept = refl

not_swept : sweep_status page [] [] ≡ 1
unfolding sweep_status text_eq
not_swept = refl

abbrev target_lock : Lock
target_lock = record lock { sources = (codes "armv7m_arm", raw_source) ∷ [] }

abbrev services : Services
services = record {
  pdf_pages = λ path. ok (page ∷ []);
  sha1 = λ s. s;
  manifest_names = λ target. ok (codes "R0" ∷ []);
}

candidates_main-zero_example :
    (candidates_main machine (some target_lock) services [] (codes "armv7m") false ≡ ok 0)
    ↔ All (IsDecided (vocabulary_of (codes "R0" ∷ []) (page ∷ [])) []) (scan (λ s. s) (page ∷ []))
candidates_main-zero_example =
    candidates_main-zero machine (some target_lock) services [] (codes "armv7m") (page ∷ [])
      (codes "R0" ∷ []) (unfold pages_of text_eq in refl) refl

-- A reviewer who tells the candidates apart by their ids.
abbrev chosen : Text → Text
chosen cid = if starts_with cid (codes "range") then codes "field" else codes "state"

chosen-valid : (cid : Text) → member (chosen cid) valid ≡ true
unfolding member text_eq
chosen-valid cid = elim (Bool-cases (starts_with cid (codes "range"))) [
  | inl e ↦ rw e refl
  | inr e ↦ rw e refl
]

seed_reviews-completed_example :
    (run_candidates vocabulary (completed chosen seeded) cands false).status ≡ 0
seed_reviews-completed_example =
    seed_reviews-completed vocabulary [] seeded cands chosen chosen-valid
      (unfold run_candidates text_eq in refl)
