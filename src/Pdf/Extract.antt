-- ===== src/Pdf/Extract.antt =====
-- `extract_tables` and `_parse_table_body` of tools/state/armpdf.py. A manual is the list of its pages,
-- which the text extractor prints.
mod Body
pub mod Fuel
mod Decided
pub mod Kept
use libhw.Base.{
  Bool, Dict, List, Option, Result, Text, [], codes, drop, false, if◌then◌else◌, insert, is_space,
  key_error, leb, length, lookup, ltb, map, member, none, not, ok, require, rstrip_by, set_default,
  some, strip, suc, take, text_eq, true, zero, ℕ, ◌&&◌, ◌++◌, ◌+◌, ◌-◌, ◌==◌, ◌>>=◌, ◌>>◌, ◌||◌,
  ◌∷◌,
}
use libhw.Base.Regex.{Regex, at_start, found_in, match, matches, text_of_group}
use libhw.Base.Regex.Patterns.{cat, lit, non_space, small, spaces, spaces1}
use libhw.Base.Regex.Texts.{cons_first}
use libhw.Pdf.Caption.{caption_of, register_caption_re, section_at, table_caption_re}
use libhw.Pdf.Lines.{furniture_re, is_header, looks_like_row, split_cells, toc_line_re}
use libhw.Pdf.Table.{Table}
use libhw.Sources.Lock.{is_empty}

pub record TableDecision : Type 0 where
  pub table_id : Text
  pub caption : Text
  pub section : Text
  pub page : ℕ
  pub kept : Bool
  pub reason : Text
  pub row_count : ℕ

-- The line breaks of `str.splitlines`, but for the line feed after a carriage return.
unfoldable pub is_break : ℕ → Bool
is_break c = leb 10 c && leb c 13 || leb 28 c && leb c 30 || c == 0x85 || c == 0x2028 || c == 0x2029

-- `page.splitlines()`
unfoldable pub splitlines : Text → List Text
unfolding is_break cons_first
splitlines [] = []
splitlines (c ∷ []) = if is_break c then [] ∷ [] else (c ∷ []) ∷ []
splitlines (c ∷ d ∷ s) =
    let rest = splitlines (d ∷ s) in
    let after = splitlines s in
    if is_break c then [] ∷ (if c == 13 && d == 10 then after else rest) else cons_first c rest

unfoldable pub footnote_re : Regex
unfolding cat spaces small lit spaces1 non_space
footnote_re = cat (at_start ∷ spaces ∷ small ∷ lit "." ∷ spaces1 ∷ non_space ∷ [])

unfoldable pub rstrip : Text → Text
unfolding rstrip_by is_space
rstrip s = rstrip_by is_space s

-- `" ".join(xs)`
unfoldable pub join_space : List Text → Text
join_space [] = []
join_space (x ∷ []) = x
join_space (x ∷ y ∷ xs) = x ++ (b' ' ∷ join_space (y ∷ xs))

-- The cells, those beyond the last column joined into it.
unfoldable pub fit_cells : ℕ → List Text → List Text
unfolding join_space
fit_cells n cells =
    if ltb n (length cells)
    then take (n - 1) cells ++ (join_space (drop (n - 1) cells) ∷ [])
    else cells

-- `{columns[j]: cells[j] for j in ...}` behind `d`
unfoldable pub mapping : List Text → List Text → Dict Text → Dict Text
unfolding insert
mapping (c ∷ cs) (x ∷ xs) d = mapping cs xs (insert c x d)
mapping _ _ d = d

unfoldable pub add_row : ℕ → Text → Table → Table
unfolding split_cells fit_cells mapping looks_like_row rstrip is_empty
add_row page line t =
    if not (is_empty t.columns) && looks_like_row line
    then record t {
      rows =
          t.rows
          ++ (record {
            cells = mapping t.columns (fit_cells (length t.columns) (split_cells line)) [];
            page = page;
            raw = rstrip line;
          }
              ∷ []);
    }
    else t

unfoldable pub body_text : ℕ → Text → Table → Table
unfolding is_empty is_header split_cells rstrip add_row
body_text page line t =
    if is_empty t.columns && is_header line
    then record t { columns = split_cells line }
    else add_row page line (record t { raw_lines = t.raw_lines ++ ((page, rstrip line) ∷ []) })

-- The table behind a line of its body, or `none` where the line ends it.
unfoldable pub body_line : ℕ → Text → Table → Option Table
unfolding strip match table_caption_re text_eq text_of_group matches footnote_re found_in
    furniture_re toc_line_re body_text is_empty
body_line page line t =
    if is_empty (strip line) then some t else elim (match table_caption_re line) [
      | some m ↦ if text_eq (text_of_group m "id") t.table_id then some t else none
      | none ↦
          if matches footnote_re line
          then none
          else if found_in furniture_re line || found_in toc_line_re line
          then some t
          else some (body_text page line t)
    ]

-- `_parse_table_body`: the lines that are left, and the table.
unfoldable pub parse_table_body : ℕ → List Text → Table → List Text × Table
unfolding body_line
parse_table_body page [] t = ([], t)
parse_table_body page (line ∷ lines) t = elim (body_line page line t) [
  | none ↦ (line ∷ lines, t)
  | some u ↦ parse_table_body page lines u
]

-- What the walk has so far.
pub record Walk : Type 0 where
  pub tables : Dict Table
  pub decisions : Dict TableDecision
  pub section : Text

-- `tid in keep_ids`, or the caption's wording if no ids are given.
unfoldable pub is_kept : Option (List Text) → Text → Text → Bool
unfolding member found_in register_caption_re
is_kept none tid caption = found_in register_caption_re caption
is_kept (some ids) tid caption = member tid ids

unfoldable pub decision_of : Text → Text → Text → ℕ → Bool → TableDecision
decision_of tid caption section page kept = record {
  table_id = tid;
  caption = caption;
  section = section;
  page = page;
  kept = kept;
  reason =
      if kept
      then codes "register-summary table"
      else codes "caption does not describe a register enumeration";
  row_count = 0;
}

unfoldable pub new_table : Text → Text → Text → ℕ → Table
new_table tid caption section page = record {
  table_id = tid;
  caption = caption;
  section = section;
  page = page;
  columns = [];
  rows = [];
  raw_lines = [];
  consumed_lines = [];
  rejected_rows = [];
}

-- `tables.get(tid)`, or a new table
unfoldable pub table_at : Walk → Text → Text → ℕ → Table
unfolding lookup new_table
table_at w tid caption page = elim (lookup tid w.tables) [
  | some t ↦ t
  | none ↦ new_table tid caption w.section page
]

unfoldable pub decide : Option (List Text) → ℕ → Text → Text → Walk → Walk
unfolding set_default decision_of is_kept
decide ids page tid caption w = record w {
  decisions =
      set_default tid (decision_of tid caption w.section page (is_kept ids tid caption))
        w.decisions;
}

-- The body behind a caption, if its table is kept: the lines that are left, and the walk.
unfoldable pub read_table : Bool → ℕ → Text → Text → List Text → Walk → List Text × Walk
unfolding parse_table_body table_at insert
read_table false page tid caption lines w = (lines, w)
read_table true page tid caption lines w =
    let (rest, t) = parse_table_body page lines (table_at w tid caption page) in
    (rest, record w { tables = insert tid t w.tables })

-- A caption, with the lines behind it.
unfoldable pub visit_caption :
    Option (List Text) → ℕ → Text × Text → List Text → Walk → List Text × Walk
unfolding decide is_kept read_table
visit_caption ids page (tid, caption) lines w =
    read_table (is_kept ids tid caption) page tid caption lines (decide ids page tid caption w)

-- The lines of a page. Each step leaves fewer, so their number is enough fuel.
unfoldable pub walk_page : Option (List Text) → ℕ → ℕ → List Text → Walk → Walk
unfolding caption_of visit_caption section_at
walk_page ids page zero lines w = w
walk_page ids page (suc fuel) [] w = w
walk_page ids page (suc fuel) (line ∷ lines) w =
    let here = record w { section = section_at w.section line } in
    elim (caption_of line) [
      | none ↦ walk_page ids page fuel lines here
      | some c ↦
          let (rest, next) = visit_caption ids page c lines here in
          walk_page ids page fuel rest next
    ]

unfoldable pub walk_pages : Option (List Text) → ℕ → List Text → Walk → Walk
unfolding walk_page splitlines
walk_pages ids page [] w = w
walk_pages ids page (text ∷ pages) w =
    let lines = splitlines text in
    walk_pages ids (page + 1) pages (walk_page ids page (length lines) lines w)

unfoldable pub set_row_count : ℕ → TableDecision → TableDecision
set_row_count n d = record d { row_count = n }

-- `for tid, t in tables.items(): decisions[tid].row_count = len(t.rows)`
unfoldable pub count_rows : Dict Table → Dict TableDecision → Result (Dict TableDecision)
unfolding lookup insert set_row_count
count_rows [] ds = ok ds
count_rows ((tid, t) ∷ tables) ds = do
  d ← require (lookup tid ds) key_error
  count_rows tables (insert tid (set_row_count (length t.rows) d) ds)

abbrev pub values {ℓ} : {A : Type ℓ} → Dict A → List A
values d = map (λ (k, v). v) d

-- `extract_tables`
unfoldable pub extract_tables :
    List Text → Option (List Text) → Result (List Table × List TableDecision)
unfolding walk_pages count_rows
extract_tables pages ids = do
  let w = walk_pages ids 1 pages (record { tables = []; decisions = []; section = [] })
  ds ← count_rows w.tables w.decisions
  ok (values w.tables, values ds)
