-- ===== src/Profiles/Row.antt =====
-- One line of a summary, in `parse_addr_name_type_reset` of tools/state/profiles.py.
use libhw.Base.{
  Bool, List, Option, Text, [], any, codes, false, if◌then◌else◌, is_space, lookup, none, not,
  or_else, rstrip_by, some, strip, suc, take, text_eq, true, zero, ℕ, ◌&&◌, ◌++◌, ◌+◌, ◌==◌, ◌||◌,
  ◌∷◌,
}
use libhw.Base.Regex.{Match, found_in, fullmatches, match, matches, text_of_group}
use libhw.Base.Regex.Patterns.{identifier}
use libhw.Base.Regex.Texts.{contains, ends_in, first_word, join_words, span}
use libhw.Importer.Rules.{RawRecord}
use libhw.Pdf.Lines.{strip_footnote}
use libhw.Pdf.Range.{expand_range}
use libhw.Profiles.Expand.{clean_name, expand_placeholder, expand_slice}
use libhw.Profiles.Patterns.{bare_line_re, cont_re, hex_line_re, open_range_re, reserved_re, row_re}
use libhw.Sources.Lock.{is_empty}

-- What one line gives: the numbers of the lines behind it that it absorbs, its records, and the rows
-- that it rejects.
pub record LineResult : Type 0 where
  pub absorbed : List ℕ
  pub records : List RawRecord
  pub rejected : List (ℕ × Text)

-- The first of the next two lines that starts with an address.
unfoldable pub absorb_address : ℕ → ℕ → List Text → List ℕ
unfolding matches hex_line_re
absorb_address zero k lines = []
absorb_address (suc n) k [] = []
absorb_address (suc n) k (line ∷ lines) =
    let rest = absorb_address n (k + 1) lines in if matches hex_line_re line then k ∷ [] else rest

unfoldable pub is_open_range : Text → Bool
unfolding found_in open_range_re
is_open_range addr = found_in open_range_re addr

unfoldable pub reserved_record : Text → Text → Text → ℕ → RawRecord
reserved_record addr access description page = record {
  name = none;
  address = some addr;
  access = access;
  reset = none;
  description = description;
  reserved = true;
  page = some page;
  sysm = none;
  alt_name = none;
}

-- `addr.rstrip('- to')`
unfoldable pub rstrip_range : Text → Text
unfolding rstrip_by
rstrip_range addr = rstrip_by (λ c. c == b'-' || c == b' ' || c == b't' || c == b'o') addr

-- The address and the name of an open range with the line behind it, and whether that line is
-- absorbed. The loop of the source leaves at its first line on each branch.
unfoldable pub join_next : Text → Text → List Text → Text × Text × Bool
unfolding match cont_re matches bare_line_re hex_line_re rstrip_range text_of_group strip
join_next addr name [] = (addr, name, false)
join_next addr name (line ∷ lines) = elim (match cont_re line) [
  | some m ↦ (
    rstrip_range addr ++ (codes " - " ++ text_of_group m "addr"),
    name ++ (codes " - " ++ text_of_group m "name"),
    true,
  )
  | none ↦
      if matches bare_line_re line
      then (rstrip_range addr ++ (codes " - " ++ strip line), name, true)
      else (addr, name, matches hex_line_re line)
]

-- `re.sub(r"_\s+", "_", name)`: `after` tells whether an underscore stands before the blanks.
unfoldable pub close_underscores : Bool → Text → Text
unfolding is_space
close_underscores after [] = []
close_underscores after (c ∷ s) =
    let dropped = close_underscores after s in
    let kept = close_underscores (c == b'_') s in if after && is_space c then dropped else c ∷ kept

unfoldable pub has_char : ℕ → Text → Bool
has_char c s = any (λ d. d == c) s

-- The name of a row, in words joined to an identifier unless it is a range.
unfoldable pub row_name : Text → Text
unfolding close_underscores strip has_char join_words
row_name name =
    let joined = strip (close_underscores false name) in
    if has_char b'-' joined then joined else join_words false (codes "_") joined

unfoldable pub or_pairs : List (Text × Text) → List (Text × Text) → List (Text × Text)
or_pairs [] other = other
or_pairs (x ∷ xs) other = x ∷ xs

-- `addr.split("+")[0].strip()`
unfoldable pub before_plus : Text → Text
unfolding span strip
before_plus addr = strip (span (λ c. not (c == b'+')) addr).0

-- The registers of a row, as addresses with names.
unfoldable pub pairs_of : Text → Text → Text → List (Text × Text)
unfolding or_pairs has_char expand_slice before_plus ends_in expand_placeholder expand_range
    clean_name
pairs_of addr name desc = or_pairs (if has_char b'[' name then expand_slice name addr else []) (
    or_pairs (if has_char b'+' addr then (before_plus addr, name) ∷ [] else []) (
      or_pairs (if ends_in b'x' name then expand_placeholder desc addr else []) (
        or_pairs (if has_char b'-' addr || has_char b'-' name then expand_range addr name else [])
          ((addr, clean_name name desc) ∷ []))))

-- The text of a match's group, or the text given if it is not there or empty.
unfoldable pub group_or : Match → Text → Text → Text
unfolding or_else lookup
group_or m name other = or_else (lookup name m.groups) other

unfoldable pub named_record : Text → Text → Text → Text → Text → ℕ → RawRecord
named_record name addr access reset description page = record {
  name = some name;
  address = some addr;
  access = access;
  reset = some reset;
  description = description;
  reserved = false;
  page = some page;
  sysm = none;
  alt_name = none;
}

-- `f"{line.strip()[:100]}  [rejected name {n!r}]"`, of a name without quotes
unfoldable pub rejection : Text → Text → Text
unfolding strip
rejection line n = take 100 (strip line) ++ (codes "  [rejected name '" ++ (n ++ codes "']"))

unfoldable pub is_identifier : Text → Bool
unfolding fullmatches identifier
is_identifier n = fullmatches identifier n

-- The record of a register, or its rejection where the name is no identifier.
unfoldable pub add_pair : ℕ → Text → Text → Text → Text → Text → Text → LineResult → LineResult
unfolding is_identifier named_record rejection
add_pair page line typ reset desc a n out =
    if is_identifier n
    then record out { records = out.records ++ (named_record n a typ reset desc page ∷ []) }
    else record out { rejected = out.rejected ++ ((page, rejection line n) ∷ []) }

-- `for a, n in pairs`
unfoldable pub sort_pairs :
    ℕ → Text → Text → Text → Text → List (Text × Text) → LineResult → LineResult
unfolding add_pair strip
sort_pairs page line typ reset desc [] out = out
sort_pairs page line typ reset desc ((a, n) ∷ pairs) out =
    sort_pairs page line typ reset desc pairs (add_pair page line typ reset desc a (strip n) out)

unfoldable pub reset_of : Text → Text
unfolding first_word strip_footnote
reset_of rest = elim (first_word rest) [ none ↦ [] | some (word, tail) ↦ strip_footnote word [] ]

unfoldable pub desc_of : Text → Text
unfolding first_word strip
desc_of rest = elim (first_word rest) [ none ↦ [] | some (word, tail) ↦ strip tail ]

-- The range goes on in the next line.
unfoldable pub is_wrapped : Match → Text → Bool → Bool
unfolding group_or is_open_range is_empty
is_wrapped m addr dashes =
    not (is_empty (group_or m (codes "adash") []))
    || (dashes && not (is_empty (group_or m (codes "ndash") [])))
    || is_open_range addr

-- The address and the name of a row, with what the next line adds to them.
unfoldable pub joined_row : Match → List Text → Text × Text × Bool
unfolding is_wrapped join_next text_of_group
joined_row m after =
    if is_wrapped m (text_of_group m "addr") true
    then join_next (text_of_group m "addr") (text_of_group m "name") after
    else (text_of_group m "addr", text_of_group m "name", false)

unfoldable pub type_of : Match → Text
unfolding group_or strip
type_of m = strip (group_or m (codes "type") (codes "-"))

unfoldable pub rest_of : Match → Text
unfolding group_or strip
rest_of m = strip (group_or m (codes "rest") [])

-- A row with a name.
unfoldable pub name_row : ℕ → ℕ → Text → List Text → Match → LineResult
unfolding joined_row type_of rest_of row_name pairs_of reset_of desc_of sort_pairs
name_row i page line after m =
    sort_pairs page line (type_of m) (reset_of (rest_of m)) (desc_of (rest_of m))
      (pairs_of (joined_row m after).0 (row_name (joined_row m after).1) (desc_of (rest_of m)))
      (record {
        absorbed = if (joined_row m after).2 then (i + 1) ∷ [] else [];
        records = [];
        rejected = [];
      })

-- A reserved row.
unfoldable pub reserved_row : ℕ → ℕ → List Text → Text → Text → Text → Bool → LineResult
unfolding absorb_address reserved_record
reserved_row i page after addr access description wrapped = record {
  absorbed = if wrapped then absorb_address 2 (i + 1) after else [];
  records = reserved_record addr access description page ∷ [];
  rejected = [];
}

unfoldable pub row_line : ℕ → ℕ → Text → List Text → Match → LineResult
unfolding text_eq strip text_of_group reserved_row name_row type_of rest_of is_wrapped or_else
row_line i page line after m =
    let addr = text_of_group m "addr" in
    if text_eq (strip (text_of_group m "name")) (codes "-")
    then reserved_row i page after addr (type_of m) (or_else (some (rest_of m)) (codes "Reserved"))
        (is_wrapped m addr false)
    else name_row i page line after m

-- The line is reserved by its shape and by its text.
unfoldable pub reserved_match : Text → Option Match
unfolding match reserved_re contains
reserved_match line = if contains line (codes "Reserved") then match reserved_re line else none

-- The loop body: `after` are the lines behind line `i`.
unfoldable pub parse_line : ℕ → ℕ → Text → List Text → LineResult
unfolding reserved_match reserved_row is_open_range text_of_group match row_re row_line
parse_line i page line after = elim (reserved_match line) [
  | some m ↦
      let addr = text_of_group m "addr" in
      reserved_row i page after addr (codes "-") (codes "Reserved") (is_open_range addr)
  | none ↦ elim (match row_re line) [
    | none ↦ record { absorbed = []; records = []; rejected = [] }
    | some m ↦ row_line i page line after m
  ]
]
