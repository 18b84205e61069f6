-- ===== src/Pdf/Caption.antt =====
-- Captions and section headings in tools/state/armpdf.py.
use libhw.Base.{Option, Text, [], codes, if◌then◌else◌, none, some, strip, ◌++◌, ◌∷◌}
use libhw.Base.Regex.{
  Regex, at_end, at_start, boundary, found_in, group, lazy, match, matches, search, seq, star,
  text_of_group,
}
use libhw.Base.Regex.Patterns.{
  any_of, at_least, between, cap, cat, digits, dot, lit, lit_i, non_space, opt, space, spaces,
  spaces1, spaces2, up_to,
}
use libhw.Pdf.Lines.{toc_line_re}

-- `TABLE_CAPTION_RE`
unfoldable pub table_caption_re : Regex
unfolding cat spaces spaces1 lit opt cap digits non_space dot
table_caption_re = cat (
    at_start
    ∷ spaces
    ∷ lit "Table"
    ∷ spaces1
    ∷ group (codes "id") (cat (opt cap ∷ digits ∷ lit "-" ∷ digits ∷ []))
    ∷ spaces1
    ∷ group (codes "caption") (seq non_space (lazy dot))
    ∷ spaces
    ∷ opt (lit "(continued)")
    ∷ spaces
    ∷ at_end
    ∷ [])

-- `SECTION_RE`
unfoldable pub section_re : Regex
unfolding cat up_to space opt cap digits between lit spaces2 non_space dot
section_re = cat (
    at_start
    ∷ up_to 24 space
    ∷ group (codes "num") (cat (opt cap ∷ digits ∷ between 1 3 (seq (lit ".") digits) ∷ []))
    ∷ spaces2
    ∷ group (codes "title") (cat (cap ∷ non_space ∷ between 2 70 dot ∷ []))
    ∷ at_end
    ∷ [])

unfoldable pub registers_i : Regex
unfolding any_of lit_i
registers_i = any_of (lit_i "register" ∷ lit_i "registers" ∷ [])

-- `REGISTER_CAPTION_RE`
unfoldable pub register_caption_re : Regex
unfolding any_of cat lit_i opt spaces dot registers_i
register_caption_re = any_of (
    cat (
      boundary
      ∷ registers_i
      ∷ boundary
      ∷ star dot
      ∷ boundary
      ∷ any_of (lit_i "summary" ∷ lit_i "summaries" ∷ [])
      ∷ boundary
      ∷ [])
    ∷ cat (
        boundary
        ∷ lit_i "summary of"
        ∷ boundary
        ∷ star dot
        ∷ boundary
        ∷ lit_i "register"
        ∷ opt (lit_i "s")
        ∷ boundary
        ∷ [])
    ∷ cat (boundary ∷ lit_i "register" ∷ opt (lit_i "s") ∷ boundary ∷ spaces ∷ at_end ∷ [])
    ∷ cat (boundary ∷ any_of (lit_i "register map" ∷ lit_i "register summary" ∷ []) ∷ boundary ∷ [])
    ∷ [])

-- A caption that starts so is a reference in prose.
unfoldable pub prose_re : Regex
unfolding cat any_of lit_i
prose_re = cat (
    at_start
    ∷ any_of (
        lit_i "shows"
        ∷ lit_i "lists"
        ∷ lit_i "summarises"
        ∷ lit_i "summarizes"
        ∷ lit_i "describes"
        ∷ lit_i "gives"
        ∷ lit_i "provides"
        ∷ lit_i "defines"
        ∷ lit_i "on page"
        ∷ [])
    ∷ boundary
    ∷ [])

unfoldable pub leader_re : Regex
unfolding cat spaces at_least lit dot
leader_re = cat (spaces ∷ at_least 2 (lit ".") ∷ star dot ∷ at_end ∷ [])

-- `re.sub(r"\s*\.{2,}.*$", "", caption).strip()`
unfoldable pub cut_leader : Text → Text
unfolding search leader_re strip
cut_leader caption =
    strip (elim (search leader_re caption) [ none ↦ caption | some (kept, m) ↦ kept ])

-- The id and the caption that the line starts a table with, if it does: not in the contents listing,
-- and not in prose.
unfoldable pub caption_of : Text → Option (Text × Text)
unfolding match table_caption_re found_in toc_line_re cut_leader strip text_of_group matches
    prose_re
caption_of line = elim (match table_caption_re line) [
  | none ↦ none
  | some m ↦
      if found_in toc_line_re line
      then none
      else (let caption = cut_leader (strip (text_of_group m "caption")) in
          if matches prose_re caption then none else some (text_of_group m "id", caption))
]

-- The section that the line starts, or else the one before.
unfoldable pub section_at : Text → Text → Text
unfolding match section_re matches table_caption_re text_of_group strip
section_at section line = elim (match section_re line) [
  | none ↦ section
  | some m ↦
      if matches table_caption_re line
      then section
      else text_of_group m "num" ++ (codes " " ++ strip (text_of_group m "title"))
]
