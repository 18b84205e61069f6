-- ===== src/Prose/Patterns.antt =====
-- tools/state/prose.py: the patterns of the scan and its word lists.
use libhw.Base.{
  Bool, Dict, List, Text, [], codes, is_digit, is_upper, map, not, upper_char, ℕ, ◌&&◌, ◌==◌, ◌||◌,
  ◌∷◌,
}
use libhw.Base.Regex.{
  Regex, alt, at_end, at_start, behind, boundary, char, group, is_word_char, lazy, not_ahead, seq,
  star,
}
use libhw.Base.Regex.Patterns.{
  any_of, at_least, between, cap, cat, digit, digits, dot, exactly, exactly_i, is_cap_char, lit,
  lit_i, name_char, non_space, opt, plus, spaces, spaces1, up_to_lazy,
}

-- The constructs of prose that the scan looks for, in the order of `PATTERNS`.
pub data Kind : Type 0 where
  range through count phrase family instr_ref comma_set : Kind

unfoldable pub kind_text : Kind → Text
kind_text range = codes "range"
kind_text through = codes "through"
kind_text count = codes "count"
kind_text phrase = codes "phrase"
kind_text family = codes "family"
kind_text instr_ref = codes "instr_ref"
kind_text comma_set = codes "comma_set"

-- `SECTION_RE`
unfoldable pub section_number : Regex → Regex
unfolding digits opt between exactly cat lit
section_number first = cat (first ∷ digits ∷ between 1 3 (seq (lit ".") digits) ∷ [])

unfoldable pub prose_section_re : Regex
unfolding section_number cap spaces1 non_space dot between opt cat
prose_section_re = cat (
    at_start
    ∷ group (codes "sec") (section_number (opt cap))
    ∷ spaces1
    ∷ group (codes "title") (cat (cap ∷ non_space ∷ between 2 70 dot ∷ []))
    ∷ at_end
    ∷ [])

-- `[A-Z0-9]`
unfoldable pub is_cap_digit : ℕ → Bool
unfolding is_upper is_digit
is_cap_digit c = is_upper c || is_digit c

unfoldable pub suffix_part : Regex
unfolding is_cap_digit plus lit
suffix_part = seq (lit "_") (plus (char is_cap_digit))

-- `_REG`, and `_REG?`, where the question mark makes the last repetition a lazy one
unfoldable pub register : Regex
unfolding cap is_cap_digit suffix_part cat
register = cat (cap ∷ star (char is_cap_digit) ∷ star suffix_part ∷ [])

unfoldable pub register_lazy : Regex
unfolding cap is_cap_digit suffix_part cat
register_lazy = cat (cap ∷ star (char is_cap_digit) ∷ lazy suffix_part ∷ [])

-- `[-–—]`
unfoldable pub is_dash : ℕ → Bool
is_dash c = c == b'-' || c == 8211 || c == 8212

-- Two numbered names with a separator between them.
unfoldable pub two_ends : Regex → Regex
unfolding register_lazy digits cat
two_ends separator = cat (
    boundary
    ∷ group (codes "base") register_lazy
    ∷ group (codes "lo") digits
    ∷ separator
    ∷ group (codes "base2") register_lazy
    ∷ group (codes "hi") digits
    ∷ boundary
    ∷ [])

unfoldable pub range_re : Regex
unfolding two_ends spaces is_dash cat
range_re = two_ends (cat (spaces ∷ char is_dash ∷ spaces ∷ []))

unfoldable pub through_re : Regex
unfolding two_ends spaces1 lit cat
through_re = two_ends (cat (spaces1 ∷ alt (lit "through") (lit "to") ∷ spaces1 ∷ []))

unfoldable pub any_word_i : List Text → Regex
unfolding any_of exactly_i
any_word_i ws = any_of (map exactly_i ws)

-- `[\w\-, ]`
unfoldable pub is_filler : ℕ → Bool
unfolding is_word_char
is_filler c = is_word_char c || c == b'-' || c == b',' || c == b' '

-- `registers?`
unfoldable pub register_word_i : Regex
unfolding lit_i opt
register_word_i = seq (lit_i "register") (opt (lit_i "s"))

abbrev pub count_words : List Text
count_words = map codes (
    "thirty-two" ∷ "sixty-four" ∷ "sixteen" ∷ "twelve" ∷ "eight" ∷ "seven" ∷ "six" ∷ "five" ∷ "four"
    ∷ "three" ∷ "two" ∷ [])

abbrev pub file_words : List Text
file_words = map codes (
    "single-precision" ∷ "double-precision" ∷ "general-purpose" ∷ "special-purpose" ∷ "banked"
    ∷ "extension" ∷ "core" ∷ "doubleword" ∷ "word" ∷ "comparator" ∷ "stimulus" ∷ [])

unfoldable pub count_re : Regex
unfolding any_word_i digit between up_to_lazy is_filler register_word_i cat
count_re = cat (
    boundary
    ∷ group (codes "count") (alt (any_word_i count_words) (between 1 3 digit))
    ∷ boundary
    ∷ group (codes "mid") (up_to_lazy 44 (char is_filler))
    ∷ boundary
    ∷ any_word_i file_words
    ∷ boundary
    ∷ up_to_lazy 24 (char is_filler)
    ∷ boundary
    ∷ register_word_i
    ∷ boundary
    ∷ [])

unfoldable pub phrase_re : Regex
unfolding lit_i plus name_char register_word_i any_of cat
phrase_re = cat (
    boundary
    ∷ any_of (
        cat (lit_i "bank of " ∷ plus name_char ∷ lit_i " " ∷ register_word_i ∷ [])
        ∷ lit_i "register file"
        ∷ lit_i "register bank"
        ∷ seq (lit_i "banked ") register_word_i
        ∷ seq (lit_i "extension ") register_word_i
        ∷ seq (lit_i "shadow ") register_word_i
        ∷ [])
    ∷ boundary
    ∷ [])

-- `<[nNxX]>|(?<=[0-9A-Z_])[nx]`
unfoldable pub placeholder : Regex
unfolding lit is_cap_char cat upper_char
placeholder =
    alt (cat (lit "<" ∷ char (λ c. upper_char c == b'N' || upper_char c == b'X') ∷ lit ">" ∷ []))
      (seq (behind is_cap_char) (char (λ c. c == b'n' || c == b'x')))

unfoldable pub family_re : Regex
unfolding register placeholder cat
family_re = cat (boundary ∷ group (codes "name") register ∷ placeholder ∷ boundary ∷ [])

unfoldable pub instr_ref_re : Regex
unfolding lit spaces1 up_to_lazy register any_of cat
instr_ref_re = cat (
    boundary
    ∷ any_of (lit "MRS" ∷ lit "MSR" ∷ lit "VMRS" ∷ lit "VMSR" ∷ [])
    ∷ boundary
    ∷ not_ahead (cat (spaces1 ∷ lit "on" ∷ spaces1 ∷ lit "page" ∷ []))
    ∷ up_to_lazy 60 (char (λ c. not (c == b'.') && not (c == 10)))
    ∷ boundary
    ∷ group (codes "name") register
    ∷ boundary
    ∷ [])

-- `_REG\d*`
unfoldable pub numbered_register : Regex
unfolding register digit
numbered_register = seq register (star digit)

-- `\s*,\s*`
unfoldable pub comma : Regex
unfolding spaces lit cat
comma = cat (spaces ∷ lit "," ∷ spaces ∷ [])

unfoldable pub comma_set_re : Regex
unfolding numbered_register comma at_least cat
comma_set_re = cat (
    boundary
    ∷ group (codes "first") numbered_register
    ∷ at_least 2 (seq comma numbered_register)
    ∷ [])

-- `PATTERNS`
unfoldable pub patterns : List (Kind × Regex)
unfolding range_re through_re count_re phrase_re family_re instr_ref_re comma_set_re
patterns =
    (range, range_re)
    ∷ (through, through_re)
    ∷ (Kind.count, count_re)
    ∷ (phrase, phrase_re)
    ∷ (family, family_re)
    ∷ (instr_ref, instr_ref_re)
    ∷ (comma_set, comma_set_re)
    ∷ []

-- `STOPWORDS`
abbrev pub stopwords : List Text
stopwords = map codes (
    "THE" ∷ "AND" ∷ "FOR" ∷ "SEE" ∷ "ALL" ∷ "ARM" ∷ "THIS" ∷ "EACH" ∷ "ANY" ∷ "NOT" ∷ "BIT" ∷ "USE"
    ∷ "ONE" ∷ "TWO" ∷ "NOTE" ∷ "WHEN" ∷ "IF" ∷ "IS" ∷ "ARE" ∷ "TO" ∷ "IN" ∷ "ON" ∷ "OF" ∷ "RAZ"
    ∷ "WI" ∷ "RO" ∷ "RW" ∷ "WO" ∷ "UNKNOWN" ∷ "UNPREDICTABLE" ∷ "IMPLEMENTATION" ∷ "DEFINED"
    ∷ "RESERVED" ∷ "SBZ" ∷ "SBO" ∷ "UNP" ∷ "PE" ∷ "PPB" ∷ "SCS" ∷ "AHB" ∷ "APB" ∷ "DAP" ∷ "MVA"
    ∷ "PMSA" ∷ "ARMV" ∷ "ISA" ∷ "ID" ∷ "LSB" ∷ "MSB" ∷ "CPU" ∷ "FIFO" ∷ "TRM" ∷ [])

-- `NUMBER_WORDS`
abbrev pub number_words : Dict ℕ
number_words =
    (codes "two", 2)
    ∷ (codes "three", 3)
    ∷ (codes "four", 4)
    ∷ (codes "five", 5)
    ∷ (codes "six", 6)
    ∷ (codes "seven", 7)
    ∷ (codes "eight", 8)
    ∷ (codes "nine", 9)
    ∷ (codes "ten", 10)
    ∷ (codes "twelve", 12)
    ∷ (codes "sixteen", 16)
    ∷ (codes "thirty-two", 32)
    ∷ (codes "sixty-four", 64)
    ∷ (codes "thirty two", 32)
    ∷ (codes "sixty four", 64)
    ∷ []
