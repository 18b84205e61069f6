-- ===== src/Profiles/Summary.antt =====
-- `parse_addr_name_type_reset` and `unparsed_rows` of tools/state/profiles.py: the standard summary of
-- registers.
mod Given
pub mod Complete
pub mod Identifiers
use libhw.Base.{
  Bool, List, Text, [], any, if◌then◌else◌, map, not, strip, ℕ, ◌&&◌, ◌++◌, ◌+◌, ◌==◌, ◌||◌, ◌∷◌,
}
use libhw.Base.Regex.{fullmatches, matches}
use libhw.Base.Regex.Patterns.{cat, hex_number, spaces}
use libhw.Importer.Rules.{RawRecord}
use libhw.Pdf.Table.{Table}
use libhw.Profiles.Patterns.{hex_line_re, reserved_re, row_re}
use libhw.Profiles.Row.{LineResult, parse_line}

unfoldable pub has_index : ℕ → List ℕ → Bool
has_index i xs = any (λ j. j == i) xs

unfoldable pub line_texts : List (ℕ × Text) → List Text
line_texts xs = map (λ (page, line). line) xs

-- What line `i` adds: nothing, if a line before absorbed it.
unfoldable pub add_line : ℕ → LineResult → LineResult → LineResult
unfolding has_index
add_line i r out = if has_index i out.absorbed then out else record {
  absorbed = out.absorbed ++ r.absorbed;
  records = out.records ++ r.records;
  rejected = out.rejected ++ r.rejected;
}

-- The loop over the lines from line `i` on.
unfoldable pub parse_lines : ℕ → List (ℕ × Text) → LineResult → LineResult
unfolding add_line parse_line line_texts
parse_lines i [] out = out
parse_lines i ((page, line) ∷ lines) out =
    parse_lines (i + 1) lines (add_line i (parse_line i page line (line_texts lines)) out)

-- `parse_addr_name_type_reset`: the records, and the table with what the parser notes on it.
unfoldable pub parse_addr_name_type_reset : Table → List RawRecord × Table
unfolding parse_lines
parse_addr_name_type_reset table =
    let out =
      parse_lines 0 table.raw_lines (record { absorbed = []; records = []; rejected = [] }) in
    (out.records, record table { consumed_lines = out.absorbed; rejected_rows = out.rejected })

-- The line is an address and nothing else.
unfoldable pub is_bare : Text → Bool
unfolding fullmatches spaces hex_number cat
is_bare line = fullmatches (cat (spaces ∷ hex_number ∷ spaces ∷ [])) line

-- The line looks like a row, and no pattern explains it.
unfoldable pub is_leftover : Text → Bool
unfolding matches hex_line_re row_re reserved_re is_bare
is_leftover line =
    matches hex_line_re line
    && not (matches row_re line || matches reserved_re line)
    && not (is_bare line)

unfoldable pub leftover_from : ℕ → List ℕ → List (ℕ × Text) → List (ℕ × Text)
unfolding has_index is_leftover strip
leftover_from i consumed [] = []
leftover_from i consumed ((page, line) ∷ lines) =
    let rest = leftover_from (i + 1) consumed lines in
    if has_index i consumed || not (is_leftover line) then rest else (page, strip line) ∷ rest

-- `unparsed_rows`
unfoldable pub unparsed_rows : Table → List (ℕ × Text)
unfolding leftover_from
unparsed_rows table = table.rejected_rows ++ leftover_from 0 table.consumed_lines table.raw_lines
