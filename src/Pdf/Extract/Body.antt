-- ===== src/Pdf/Extract/Body.antt =====
-- The body of a table: it leaves no more lines than it gets, and it keeps the id.
use libhw.Base.{
  Bool-cases, List, Option-cases, Text, [], ap, arith, inl, inr, length, refl, some, some-injective,
  strip, sym, text_eq, ℕ, ◌||◌, ◌∙◌, ◌∷◌, ◌≡◌, ◌≤◌,
}
use libhw.Base.Regex.{found_in, match, matches, text_of_group}
use libhw.Pdf.Caption.{table_caption_re}
use libhw.Pdf.Extract.{add_row, body_line, body_text, footnote_re, parse_table_body}
use libhw.Pdf.Lines.{furniture_re, toc_line_re}
use libhw.Pdf.Table.{Table}
use libhw.Sources.Lock.{is_empty}

pub length-parse_table_body :
    (page : ℕ) (lines : List Text) (t : Table)
    → length (parse_table_body page lines t).0 ≤ length lines
unfolding parse_table_body
length-parse_table_body page [] t = omega arith
length-parse_table_body page (line ∷ lines) t = elim (Option-cases (body_line page line t)) [
  | inl e ↦ rw (e, parse_table_body) (omega arith)
  | inr (u, e) ↦ rw (e, parse_table_body) (omega (arith, length-parse_table_body page lines u))
]

body_text-id : (page : ℕ) (line : Text) (t : Table) → (body_text page line t).table_id ≡ t.table_id
unfolding body_text add_row
body_text-id page line t = ground arith

body_line-id :
    (page : ℕ) (line : Text) (t u : Table)
    → body_line page line t ≡ some u
    → u.table_id ≡ t.table_id
unfolding body_line
body_line-id page line t u h =
    let same : some t ≡ some u → u.table_id ≡ t.table_id =
      λ e. sym (ap (λ (x : Table). x.table_id) (some-injective t u e)) in
    elim (Bool-cases (is_empty (strip line))) [
      | inl blank ↦ same (rw blank at h)
      | inr text ↦ elim (Option-cases (match table_caption_re line)) [
        | inr (m, e) ↦ elim (Bool-cases (text_eq (text_of_group m "id") t.table_id)) [
          | inl own ↦ same (rw (text, e, own) at h)
          | inr other ↦ absurd (cc (rw (text, e, other) at h))
        ]
        | inl e ↦ elim (Bool-cases (matches footnote_re line)) [
          | inl note ↦ absurd (cc (rw (text, e, note) at h))
          | inr body ↦ elim (Bool-cases (found_in furniture_re line || found_in toc_line_re line)) [
            | inl skip ↦ same (rw (text, e, body, skip) at h)
            | inr kept ↦
                let eq = some-injective (body_text page line t) u (rw (text, e, body, kept) at h) in
                ap (λ (x : Table). x.table_id) (sym eq) ∙ body_text-id page line t
          ]
        ]
      ]
    ]

pub parse_table_body-id :
    (page : ℕ) (lines : List Text) (t : Table)
    → (parse_table_body page lines t).1.table_id ≡ t.table_id
unfolding parse_table_body
parse_table_body-id page [] t = refl
parse_table_body-id page (line ∷ lines) t = elim (Option-cases (body_line page line t)) [
  | inl e ↦ rw (e, parse_table_body) refl
  | inr (u, e) ↦
      rw (e, parse_table_body) (parse_table_body-id page lines u ∙ body_line-id page line t u e)
]
