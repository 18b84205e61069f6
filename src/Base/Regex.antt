-- ===== src/Base/Regex.antt =====
-- Python's `re`, as far as the program uses it: a pattern is data, and a match backtracks as `re` does,
-- the left choice first. `\w` and `\d` are those of ASCII.
pub mod Iterate
pub mod Patterns
pub mod Texts
use Prim.Native.String.{String}
use libhw.Base.{
  Bool, Dict, Option, Text, [], codes, false, if◌then◌else◌, insert, is_digit, is_lower, is_upper,
  length, lookup, ltb, none, not, some, suc, take, true, zero, ℕ, ◌-◌, ◌==◌, ◌||◌, ◌∷◌,
}

pub data Regex : Type 0 where
  empty : Regex
  char : (ℕ → Bool) → Regex
  seq alt : Regex → Regex → Regex
  -- `*` and `*?`
  star lazy : Regex → Regex
  group : Text → Regex → Regex
  -- `(?=...)` and `(?!...)`
  ahead not_ahead : Regex → Regex
  -- `^`, `$` and `\b`
  at_start at_end boundary : Regex
  -- `^` and `$` under `re.M`
  line_start line_end : Regex
  -- `(?<=[...])`, of one character
  behind : (ℕ → Bool) → Regex

-- A place in a text: the character before it, and what is left.
pub record Cursor : Type 0 where
  pub before : Option ℕ
  pub rest : Text

pub record Match : Type 0 where
  pub groups : Dict Text
  pub stop : Cursor

-- What is tried behind a match.
abbrev pub Next : Type 0
Next = Cursor → Dict Text → Option Match

unfoldable pub is_word_char : ℕ → Bool
unfolding is_upper is_lower is_digit
is_word_char c = is_upper c || is_lower c || is_digit c || c == b'_'

unfoldable pub word_at : Option ℕ → Bool
unfolding is_word_char
word_at none = false
word_at (some c) = is_word_char c

unfoldable pub head_of : Text → Option ℕ
head_of [] = none
head_of (c ∷ s) = some c

unfoldable pub at_boundary : Cursor → Bool
unfolding word_at head_of
at_boundary c =
    if word_at c.before then not (word_at (head_of c.rest)) else word_at (head_of c.rest)

-- The end of the text, or a line feed that ends it.
unfoldable pub is_at_end : Text → Bool
is_at_end [] = true
is_at_end (c ∷ []) = c == 10
is_at_end (c ∷ d ∷ s) = false

unfoldable pub is_at_start : Option ℕ → Bool
is_at_start none = true
is_at_start (some c) = false

unfoldable pub is_line_start : Option ℕ → Bool
is_line_start none = true
is_line_start (some c) = c == 10

unfoldable pub is_line_end : Text → Bool
is_line_end [] = true
is_line_end (c ∷ s) = c == 10

unfoldable pub is_behind : (ℕ → Bool) → Option ℕ → Bool
is_behind p none = false
is_behind p (some c) = p c

unfoldable pub char_at : (ℕ → Bool) → Text → Dict Text → Next → Option Match
char_at p [] g next = none
char_at p (c ∷ s) g next = if p c then next (record { before = some c; rest = s }) g else none

unfoldable pub orelse : Option Match → Option Match → Option Match
orelse (some m) other = some m
orelse none other = other

-- A repetition tries one more round and then the rest of the pattern, or the other way round. A
-- round that reads nothing ends it, so the length of the text is enough fuel.
unfoldable pub star_loop :
    (Cursor → Dict Text → Next → Option Match) → ℕ → Cursor → Dict Text → Next → Option Match
unfolding orelse
star_loop body zero c g next = next c g
star_loop body (suc fuel) c g next =
    orelse
      (body c g
        (λ d h. if ltb (length d.rest) (length c.rest) then star_loop body fuel d h next else none))
      (next c g)

unfoldable pub lazy_loop :
    (Cursor → Dict Text → Next → Option Match) → ℕ → Cursor → Dict Text → Next → Option Match
unfolding orelse
lazy_loop body zero c g next = next c g
lazy_loop body (suc fuel) c g next = orelse (next c g) (
    body c g
      (λ d h. if ltb (length d.rest) (length c.rest) then lazy_loop body fuel d h next else none))

unfoldable pub is_some : Option Match → Bool
is_some none = false
is_some (some m) = true

unfoldable pub accept : Next
accept c g = some (record { groups = g; stop = c })

unfoldable pub match_at : Regex → Cursor → Dict Text → Next → Option Match
unfolding char_at star_loop lazy_loop orelse insert is_some accept is_at_start is_at_end at_boundary
    is_line_start is_line_end is_behind
match_at empty c g next = next c g
match_at (char p) c g next = char_at p c.rest g next
match_at (seq r t) c g next = match_at r c g (λ d h. match_at t d h next)
match_at (alt r t) c g next = orelse (match_at r c g next) (match_at t c g next)
match_at (star r) c g next = star_loop (match_at r) (length c.rest) c g next
match_at (lazy r) c g next = lazy_loop (match_at r) (length c.rest) c g next
match_at (group name r) c g next =
    match_at r c g (λ d h. next d (insert name (take (length c.rest - length d.rest) c.rest) h))
match_at (ahead r) c g next = if is_some (match_at r c g accept) then next c g else none
match_at (not_ahead r) c g next = if is_some (match_at r c g accept) then none else next c g
match_at at_start c g next = if is_at_start c.before then next c g else none
match_at at_end c g next = if is_at_end c.rest then next c g else none
match_at boundary c g next = if at_boundary c then next c g else none
match_at line_start c g next = if is_line_start c.before then next c g else none
match_at line_end c g next = if is_line_end c.rest then next c g else none
match_at (behind p) c g next = if is_behind p c.before then next c g else none

unfoldable pub accept_end : Next
unfolding accept
accept_end c g = elim c.rest [ [] ↦ accept c g | _ ↦ none ]

-- `re.match(r, s)`
unfoldable pub match : Regex → Text → Option Match
unfolding match_at accept
match r s = match_at r (record { before = none; rest = s }) [] accept

-- `re.fullmatch(r, s)`
unfoldable pub fullmatch : Regex → Text → Option Match
unfolding match_at accept_end
fullmatch r s = match_at r (record { before = none; rest = s }) [] accept_end

-- The first place from which the pattern matches, as what stands before the match, and the match.
unfoldable pub search_from : Regex → Option ℕ → Text → Option (Text × Match)
unfolding match_at accept
search_from r b [] = elim (match_at r (record { before = b; rest = [] }) [] accept) [
  | none ↦ none
  | some m ↦ some ([], m)
]
search_from r b (c ∷ s) = elim (match_at r (record { before = b; rest = c ∷ s }) [] accept) [
  | some m ↦ some ([], m)
  | none ↦ elim (search_from r (some c) s) [
    | none ↦ none
    | some (skipped, m) ↦ some (c ∷ skipped, m)
  ]
]

-- `re.search(r, s)`
unfoldable pub search : Regex → Text → Option (Text × Match)
unfolding search_from
search r s = search_from r none s

unfoldable pub matches : Regex → Text → Bool
unfolding match is_some
matches r s = is_some (match r s)

unfoldable pub fullmatches : Regex → Text → Bool
unfolding fullmatch is_some
fullmatches r s = is_some (fullmatch r s)

unfoldable pub found_in : Regex → Text → Bool
unfolding search
found_in r s = elim (search r s) [ none ↦ false | some m ↦ true ]

-- `m.group(name)`
unfoldable pub group_of : Match → String → Option Text
unfolding lookup
group_of m name = lookup (codes name) m.groups

-- `m.group(name)` of a group that every match sets
unfoldable pub text_of_group : Match → String → Text
unfolding group_of
text_of_group m name = elim (group_of m name) [ none ↦ [] | some t ↦ t ]
