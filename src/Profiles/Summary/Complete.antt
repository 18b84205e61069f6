-- ===== src/Profiles/Summary/Complete.antt =====
-- What an empty list of unparsed rows says of a summary.
use libhw.Base.{
  Bool, Bool-cases, List, Text, [], any-append, ap, append-nil, append_assoc, arith, codes, false,
  inl, inr, none, not, refl, sym, true, ℕ, ◌&&◌, ◌++◌, ◌+◌, ◌==◌, ◌||◌, ◌∙◌, ◌∷◌, ◌≡◌, ◌⊎◌,
}
use libhw.Base.Regex.{is_some, match, matches}
use libhw.Base.Regex.Texts.{contains}
use libhw.Importer.Rules.{RawRecord}
use libhw.Pdf.Table.{Table}
use libhw.Profiles.Patterns.{hex_line_re, reserved_re, row_re}
use libhw.Profiles.Row.{LineResult, parse_line, reserved_match}
use libhw.Profiles.Summary.{
  add_line, has_index, is_bare, is_leftover, leftover_from, line_texts, parse_addr_name_type_reset,
  parse_lines, unparsed_rows,
}
use libhw.Profiles.Summary.Given.{parse_line-Given}
use libhw.Sources.Lock.{is_empty}

-- The line has the shape of a reserved row, but neither the word nor the shape of another row: the
-- parser makes no record of it, and `unparsed_rows` does not list it.
unfoldable pub is_gap : Text → Bool
unfolding matches row_re reserved_re contains
is_gap line =
    matches reserved_re line && not (contains line (codes "Reserved")) && not (matches row_re line)

-- The result has records, it rejects nothing, and its records stand together among all.
abbrev pub Recorded : List RawRecord → LineResult → Type 0
Recorded records r =
    (is_empty r.records ≡ false)
    × (r.rejected ≡ [])
    × (before : List RawRecord) × (after : List RawRecord) × (records
        ≡ before ++ (r.records ++ after))

abbrev pub IsExplained : Text → Type 0
IsExplained line = (matches hex_line_re line ≡ false) ⊎ (is_bare line ≡ true) ⊎ (is_gap line ≡ true)

-- Each line, from line `i` on, is absorbed by one before it, or has its records in the list, or does
-- not start with an address, or is nothing but an address, or is in the gap.
abbrev pub AllRecorded : ℕ → List ℕ → List RawRecord → List (ℕ × Text) → Type 0
AllRecorded i absorbed records [] = Unit
AllRecorded i absorbed records ((page, line) ∷ lines) =
    ((has_index i absorbed ≡ true)
      ⊎ Recorded records (parse_line i page line (line_texts lines))
      ⊎ IsExplained line)
    × AllRecorded (i + 1) absorbed records lines

-- The loop adds to the results that it has.
abbrev Grows : LineResult → LineResult → Type 0
Grows out fin =
    (xs : List ℕ) × (rs : List RawRecord) × (js : List (ℕ × Text)) × (fin.absorbed
      ≡ out.absorbed ++ xs)
    × (fin.records ≡ out.records ++ rs)
    × (fin.rejected ≡ out.rejected ++ js)

Grows-refl : (out : LineResult) → Grows out out
Grows-refl out = (
  [],
  [],
  [],
  sym (append-nil out.absorbed),
  sym (append-nil out.records),
  sym (append-nil out.rejected),
)

add_line-Grows : (i : ℕ) (r out : LineResult) → Grows out (add_line i r out)
unfolding add_line
add_line-Grows i r out = elim (Bool-cases (has_index i out.absorbed)) [
  | inl e ↦ rw e (Grows-refl out)
  | inr e ↦ rw e (r.absorbed, r.records, r.rejected, refl, refl, refl)
]

Grows-trans : (a b c : LineResult) → Grows a b → Grows b c → Grows a c
Grows-trans a b c (xs, rs, js, ea, er, ej) (xs2, rs2, js2, ea2, er2, ej2) = (
  xs ++ xs2,
  rs ++ rs2,
  js ++ js2,
  ea2 ∙ ap (λ l. l ++ xs2) ea ∙ append_assoc a.absorbed xs xs2,
  er2 ∙ ap (λ l. l ++ rs2) er ∙ append_assoc a.records rs rs2,
  ej2 ∙ ap (λ l. l ++ js2) ej ∙ append_assoc a.rejected js js2,
)

parse_lines-Grows :
    (i : ℕ) (lines : List (ℕ × Text)) (out : LineResult) → Grows out (parse_lines i lines out)
unfolding parse_lines
parse_lines-Grows i [] out = Grows-refl out
parse_lines-Grows i ((page, line) ∷ lines) out =
    let r = parse_line i page line (line_texts lines) in
    Grows-trans out (add_line i r out) _ (add_line-Grows i r out)
      (parse_lines-Grows (i + 1) lines (add_line i r out))

has_index-append : (i : ℕ) (xs ys : List ℕ) → has_index i xs ≡ true → has_index i (xs ++ ys) ≡ true
unfolding has_index
has_index-append i xs ys h = any-append (λ j. j == i) xs ys ∙ rw h refl

append-nil_parts {ℓ} : {A : Type ℓ} (xs ys zs : List A) → (xs ++ ys) ++ zs ≡ [] → ys ≡ []
append-nil_parts [] [] zs h = refl
append-nil_parts [] (y ∷ ys) zs h = cc
append-nil_parts (x ∷ xs) ys zs h = cc

reserved_match-none :
    (line : Text)
    → reserved_match line ≡ none
    → (contains line (codes "Reserved") ≡ false) ⊎ (matches reserved_re line ≡ false)
unfolding reserved_match matches
reserved_match-none line h = elim (Bool-cases (contains line (codes "Reserved"))) [
  | inr e ↦ inl e
  | inl e ↦
      let unmatched : match reserved_re line ≡ none = rw e at h in
      inr (rw unmatched (unfold is_some in refl))
]

explained :
    (hex row res word bare : Bool)
    → (hex && not (row || res) && not bare) ≡ false
    → row ≡ false
    → (word ≡ false) ⊎ (res ≡ false)
    → (hex ≡ false) ⊎ (bare ≡ true) ⊎ ((res && not word && not row) ≡ true)
explained hex row res word true h r u = inr (inl refl)
explained false row res word bare h r u = inl refl
explained true row true word false h r (inr u) = cc
explained true row true word false h r (inl u) = inr (inr (rw (u, r) refl))
explained true row false word false h r u = absurd (ground arith)

IsExplained-cases :
    (line : Text)
    → is_leftover line ≡ false
    → reserved_match line ≡ none
    → matches row_re line ≡ false
    → IsExplained line
unfolding is_leftover is_gap
IsExplained-cases line h reserved row =
    explained (matches hex_line_re line) (matches row_re line) (matches reserved_re line)
      (contains line (codes "Reserved")) (is_bare line) h row (reserved_match-none line reserved)

-- The line is absorbed in the end, or it is not a leftover, as the list of leftovers is empty.
leftover_from-nil :
    (i : ℕ) (consumed : List ℕ) (page : ℕ) (line : Text) (lines : List (ℕ × Text))
    → leftover_from i consumed ((page, line) ∷ lines) ≡ []
    → ((has_index i consumed ≡ true) ⊎ (is_leftover line ≡ false))
      × (leftover_from (i + 1) consumed lines ≡ [])
unfolding leftover_from
leftover_from-nil i consumed page line lines h = elim (Bool-cases (has_index i consumed)) [
  | inl e ↦ (inl e, rw e at h)
  | inr e ↦ elim (Bool-cases (is_leftover line)) [
    | inl f ↦ absurd (cc (rw (e, f) at h))
    | inr f ↦ (inr f, rw (e, f) at h)
  ]
]

append-nil_both {ℓ} : {A : Type ℓ} (xs ys : List A) → (xs ++ ys) ≡ [] → (xs ≡ []) × (ys ≡ [])
append-nil_both [] ys h = (refl, h)
append-nil_both (x ∷ xs) ys h = cc

abbrev Final : ℕ → LineResult → List (ℕ × Text) → Type 0
Final i fin lines =
    (fin.rejected ≡ [])
    → (leftover_from i fin.absorbed lines ≡ [])
    → AllRecorded i fin.absorbed fin.records lines

-- The block of a line in the final list, if it was not absorbed when the loop came to it.
Recorded-block :
    (i : ℕ) (r out fin : LineResult)
    → has_index i out.absorbed ≡ false
    → Grows (add_line i r out) fin
    → fin.rejected ≡ []
    → (r.rejected ≡ [])
      × (before : List RawRecord) × (after : List RawRecord) × (fin.records
          ≡ before ++ (r.records ++ after))
unfolding add_line
Recorded-block i r out fin new (xs, rs, js, ea, er, ej) none_rejected =
    let all_records : fin.records ≡ (out.records ++ r.records) ++ rs = rw new at er in
    let all_rejected : fin.rejected ≡ (out.rejected ++ r.rejected) ++ js = rw new at ej in
    (
      append-nil_parts out.rejected r.rejected js (sym all_rejected ∙ none_rejected),
      out.records,
      rs,
      all_records ∙ append_assoc out.records r.records rs,
    )

not_absorbed :
    (i : ℕ) (out fin : LineResult)
    → Grows out fin
    → has_index i fin.absorbed ≡ false
    → has_index i out.absorbed ≡ false
not_absorbed i out fin (xs, rs, js, ea, er, ej) h = elim (Bool-cases (has_index i out.absorbed)) [
  | inr e ↦ e
  | inl e ↦ absurd (cc (has_index-append i out.absorbed xs e, ea, h))
]

left_by : {a b : Bool} → a ≡ false → (a ≡ true) ⊎ (b ≡ false) → b ≡ false
left_by e (inl h) = cc
left_by e (inr h) = h

parse_lines-Final :
    (i : ℕ) (lines : List (ℕ × Text)) (out : LineResult) → Final i (parse_lines i lines out) lines
unfolding parse_lines
parse_lines-Final i [] out none_rejected none_left = tt
parse_lines-Final i ((page, line) ∷ lines) out none_rejected none_left =
    let r = parse_line i page line (line_texts lines) in
    let fin = parse_lines (i + 1) lines (add_line i r out) in
    let grows = parse_lines-Grows (i + 1) lines (add_line i r out) in
    let (here, rest) = leftover_from-nil i fin.absorbed page line lines none_left in
    (
      elim (Bool-cases (has_index i fin.absorbed)) [
        | inl e ↦ inl e
        | inr e ↦
            let new =
              not_absorbed i out fin
                (Grows-trans out (add_line i r out) fin (add_line-Grows i r out) grows) e in
            let (clean, before, after, block) =
              Recorded-block i r out fin new grows none_rejected in
            elim (parse_line-Given i page line (line_texts lines) clean) [
              | inl given ↦ inr (inl (given, clean, before, after, block))
              | inr (reserved, row) ↦
                  inr (inr (IsExplained-cases line (left_by e here) reserved row))
            ]
      ],
      parse_lines-Final (i + 1) lines (add_line i r out) none_rejected rest,
    )

-- If no row of a summary stays unparsed, then each of its lines that starts with an address has
-- records of its own among those of the table, and none is rejected; but for lines that the line of
-- an open range absorbs, lines with nothing but an address, and lines in the gap, which have the shape
-- of a reserved row without the word.
pub unparsed_rows_complete :
    (table : Table)
    → unparsed_rows (parse_addr_name_type_reset table).1 ≡ []
    → let (records, marked) = parse_addr_name_type_reset table in
      AllRecorded 0 marked.consumed_lines records table.raw_lines
unfolding parse_addr_name_type_reset unparsed_rows
unparsed_rows_complete table h =
    let start : LineResult = record { absorbed = []; records = []; rejected = [] } in
    let fin = parse_lines 0 table.raw_lines start in
    let (none_rejected, none_left) = append-nil_both fin.rejected _ h in
    parse_lines-Final 0 table.raw_lines start none_rejected none_left
