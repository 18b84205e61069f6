-- ===== src/Pdf/Extract/Fuel.antt =====
-- The loop over the lines of a page ends.
use libhw.Base.{
  Bool, List, Option, Option-cases, Text, [], arith, false, inl, inr, length, refl, suc, true, zero,
  ℕ, ◌+◌, ◌∷◌, ◌≡◌, ◌≤◌,
}
use libhw.Pdf.Caption.{caption_of, section_at}
use libhw.Pdf.Extract.{Walk, decide, is_kept, read_table, table_at, visit_caption, walk_page}
use libhw.Pdf.Extract.Body.{length-parse_table_body}

length-read_table :
    (kept : Bool) (page : ℕ) (tid caption : Text) (lines : List Text) (w : Walk)
    → length (read_table kept page tid caption lines w).0 ≤ length lines
unfolding read_table
length-read_table false page tid caption lines w = omega arith
length-read_table true page tid caption lines w =
    length-parse_table_body page lines (table_at w tid caption page)

length-visit_caption :
    (ids : Option (List Text)) (page : ℕ) (c : Text × Text) (lines : List Text) (w : Walk)
    → length (visit_caption ids page c lines w).0 ≤ length lines
unfolding visit_caption
length-visit_caption ids page (tid, caption) lines w =
    length-read_table (is_kept ids tid caption) page tid caption lines
      (decide ids page tid caption w)

walk_page-any :
    (ids : Option (List Text)) (page f g : ℕ) (lines : List Text) (w : Walk)
    → length lines ≤ f
    → length lines ≤ g
    → walk_page ids page f lines w ≡ walk_page ids page g lines w
unfolding walk_page
walk_page-any ids page zero zero lines w hf hg = refl
walk_page-any ids page zero (suc g) [] w hf hg = refl
walk_page-any ids page zero (suc g) (line ∷ lines) w hf hg = absurd (omega arith)
walk_page-any ids page (suc f) zero [] w hf hg = refl
walk_page-any ids page (suc f) zero (line ∷ lines) w hf hg = absurd (omega arith)
walk_page-any ids page (suc f) (suc g) [] w hf hg = refl
walk_page-any ids page (suc f) (suc g) (line ∷ lines) w hf hg =
    let here : Walk = record w { section = section_at w.section line } in
    elim (Option-cases (caption_of line)) [
      | inl e ↦
          rw (e, walk_page) (walk_page-any ids page f g lines here (omega arith) (omega arith))
      | inr (c, e) ↦
          let (rest, next) = visit_caption ids page c lines here in
          let fewer = length-visit_caption ids page c lines here in
          rw (e, walk_page) (walk_page-any ids page f g rest next (omega arith) (omega arith))
    ]

-- The number of lines is enough fuel for the walk over a page: with more, it ends in the same state.
pub walk_page-length :
    (ids : Option (List Text)) (page extra : ℕ) (lines : List Text) (w : Walk)
    → walk_page ids page (length lines + extra) lines w ≡ walk_page ids page (length lines) lines w
walk_page-length ids page extra lines w =
    walk_page-any ids page (length lines + extra) (length lines) lines w (omega arith) (omega arith)
