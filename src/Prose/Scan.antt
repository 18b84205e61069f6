-- ===== src/Prose/Scan.antt =====
-- `scan` of tools/state/prose.py. `sha1` is `hashlib.sha1(...).hexdigest()` of a text in UTF-8; the
-- pages are those that `pdf_pages` returns.
pub mod Bounds
pub mod Unique
use libhw.Base.{
  Bool, Dict, List, Text, [], codes, drop, has_key, if◌then◌else◌, insert, length, ltb, map, member,
  none, not, some, strip, take, text_eq, text_lt, ℕ, ◌++◌, ◌+◌, ◌-◌, ◌∷◌,
}
use libhw.Base.Regex.{Regex, match, text_of_group}
use libhw.Base.Regex.Iterate.{Occurrence, end_of, finditer}
use libhw.Importer.Target.{sorted}
use libhw.Pdf.Extract.{join_space, splitlines}
use libhw.Prose.Names.{names_of}
use libhw.Prose.Patterns.{Kind, kind_text, patterns, prose_section_re}
use libhw.Sources.Lock.{is_empty}

pub record ProseCandidate : Type 0 where
  pub cid : Text
  pub kind : Kind
  pub raw : Text
  pub names : List Text
  pub section : Text
  pub page : ℕ
  pub context : Text

-- `set(xs)`, in the order of the first of each
unfoldable pub as_set : List Text → List Text
unfolding member
as_set [] = []
as_set (x ∷ xs) = let rest = as_set xs in if member x rest then rest else x ∷ rest

-- `window[max(0, start - 60):end + 60].strip()[:MAX_CONTEXT]`
unfoldable pub context_of : Text → Occurrence → Text
unfolding strip end_of
context_of window f =
    let start = f.at - 60 in take 150 (strip (take (end_of f + 60 - start) (drop start window)))

-- The section that a heading opens, or the one that was open.
unfoldable pub section_after : Text → Text → Text
unfolding strip match prose_section_re text_of_group
section_after line section = elim (match prose_section_re (strip line)) [
  | none ↦ section
  | some m ↦ text_of_group m "sec" ++ codes " " ++ strip (text_of_group m "title")
]

unfoldable pub window_of : List Text → Text
unfolding strip join_space
window_of lines = join_space (map strip (take 2 lines))

-- What the scan keeps between lines: the candidates by id, and the section it is in.
pub record Scanned : Type 0 where
  pub out : Dict ProseCandidate
  pub section : Text

-- `(c.kind, c.section, c.raw)`, compared
unfoldable pub sorts_first : ProseCandidate → ProseCandidate → Bool
unfolding kind_text text_eq text_lt
sorts_first c d =
    if not (text_eq (kind_text c.kind) (kind_text d.kind))
    then text_lt (kind_text c.kind) (kind_text d.kind)
    else if not (text_eq c.section d.section)
    then text_lt c.section d.section
    else text_lt c.raw d.raw

unfoldable pub insert_candidate : ProseCandidate → List ProseCandidate → List ProseCandidate
unfolding sorts_first
insert_candidate c [] = c ∷ []
insert_candidate c (d ∷ ds) =
    let rest = insert_candidate c ds in if sorts_first d c then d ∷ rest else c ∷ d ∷ ds

unfoldable pub sorted_values : Dict ProseCandidate → List ProseCandidate
unfolding insert_candidate
sorted_values [] = []
sorted_values ((k, c) ∷ d) = insert_candidate c (sorted_values d)

-- `if len(raw) > 90: continue`, and `if cid in out: continue`
unfoldable pub add_candidate : ProseCandidate → Dict ProseCandidate → Dict ProseCandidate
unfolding has_key insert
add_candidate c out =
    if ltb 90 (length c.raw) then out else if has_key c.cid out then out else insert c.cid c out

module _ (sha1 : Text → Text) where
  -- `_cid(kind, raw, section)`
  unfoldable pub candidate_id : Kind → Text → Text → Text
  unfolding kind_text
  candidate_id kind raw section =
      let bar = codes "|" in
      kind_text kind ++ codes ":" ++ take 10 (sha1 (kind_text kind ++ bar ++ raw ++ bar ++ section))

  unfoldable pub candidate_of : Text → ℕ → Text → Kind → Occurrence → List Text → ProseCandidate
  unfolding strip candidate_id sorted as_set context_of
  candidate_of section page window kind f names =
      let raw = strip f.whole in
      record {
        cid = candidate_id kind raw section;
        kind = kind;
        raw = raw;
        names = sorted (as_set names);
        section = section;
        page = page;
        context = context_of window f;
      }

  unfoldable pub scan_match :
      Text → ℕ → Text → Kind → Occurrence → Dict ProseCandidate → Dict ProseCandidate
  unfolding names_of add_candidate candidate_of
  scan_match section page window kind f out = elim (names_of kind f) [
    | none ↦ out
    | some names ↦ add_candidate (candidate_of section page window kind f names) out
  ]

  unfoldable pub scan_matches :
      Text → ℕ → Text → Kind → List Occurrence → Dict ProseCandidate → Dict ProseCandidate
  unfolding scan_match
  scan_matches section page window kind [] out = out
  scan_matches section page window kind (f ∷ fs) out =
      scan_matches section page window kind fs (scan_match section page window kind f out)

  unfoldable pub scan_kinds :
      Text → ℕ → Text → List (Kind × Regex) → Dict ProseCandidate → Dict ProseCandidate
  unfolding scan_matches finditer
  scan_kinds section page window [] out = out
  scan_kinds section page window ((kind, rx) ∷ ks) out =
      scan_kinds section page window ks
        (scan_matches section page window kind (finditer rx window) out)

  unfoldable pub scan_lines : ℕ → List Text → Scanned → Scanned
  unfolding section_after window_of strip is_empty scan_kinds patterns
  scan_lines page [] s = s
  scan_lines page (line ∷ lines) s =
      let section = section_after line s.section in
      let window = window_of (line ∷ lines) in
      scan_lines page lines (record {
        out =
            if is_empty (strip window)
            then s.out
            else scan_kinds section page window patterns s.out;
        section = section;
      })

  unfoldable pub scan_pages : ℕ → List Text → Scanned → Scanned
  unfolding scan_lines splitlines
  scan_pages page [] s = s
  scan_pages page (text ∷ pages) s =
      scan_pages (page + 1) pages (scan_lines page (splitlines text) s)

  -- `scan(path)`, of the document's pages
  unfoldable pub scan : List Text → List ProseCandidate
  unfolding scan_pages sorted_values
  scan pages = sorted_values (scan_pages 1 pages (record { out = []; section = [] })).out
