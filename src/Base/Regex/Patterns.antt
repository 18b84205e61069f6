-- ===== src/Base/Regex/Patterns.antt =====
-- Patterns for the constructs of `re` that the program's patterns are written with.
use Prim.Native.String.{String}
use libhw.Base.{
  Bool, List, Text, [], codes, is_digit, is_lower, is_space, is_upper, leb, not, suc, upper_char,
  zero, ℕ, ◌&&◌, ◌-◌, ◌==◌, ◌||◌, ◌∷◌,
}
use libhw.Base.Regex.{Regex, alt, char, empty, is_word_char, lazy, not_ahead, seq, star}

unfoldable pub cat : List Regex → Regex
cat [] = empty
cat (r ∷ []) = r
cat (r ∷ t ∷ rs) = seq r (cat (t ∷ rs))

-- `r|s|...`
unfoldable pub any_of : List Regex → Regex
any_of [] = not_ahead empty
any_of (r ∷ []) = r
any_of (r ∷ t ∷ rs) = alt r (any_of (t ∷ rs))

unfoldable pub exactly : Text → Regex
exactly [] = empty
exactly (c ∷ []) = char (λ d. d == c)
exactly (c ∷ d ∷ s) = seq (char (λ e. e == c)) (exactly (d ∷ s))

unfoldable pub lit : String → Regex
unfolding exactly
lit s = exactly (codes s)

-- A literal under `re.IGNORECASE`.
unfoldable pub exactly_i : Text → Regex
unfolding upper_char
exactly_i [] = empty
exactly_i (c ∷ s) = seq (char (λ d. upper_char d == upper_char c)) (exactly_i s)

unfoldable pub lit_i : String → Regex
unfolding exactly_i
lit_i s = exactly_i (codes s)

-- `r+`, `r+?`, `r?`
unfoldable pub plus : Regex → Regex
plus r = seq r (star r)

unfoldable pub plus_lazy : Regex → Regex
plus_lazy r = seq r (lazy r)

unfoldable pub opt : Regex → Regex
opt r = alt r empty

-- `r{n}`, `r{0,n}`, `r{n,}`
unfoldable pub times : ℕ → Regex → Regex
times zero r = empty
times (suc n) r = seq r (times n r)

unfoldable pub up_to : ℕ → Regex → Regex
unfolding opt
up_to zero r = empty
up_to (suc n) r = opt (seq r (up_to n r))

-- `r{0,n}?`
unfoldable pub up_to_lazy : ℕ → Regex → Regex
up_to_lazy zero r = empty
up_to_lazy (suc n) r = alt empty (seq r (up_to_lazy n r))

unfoldable pub at_least : ℕ → Regex → Regex
unfolding times
at_least n r = seq (times n r) (star r)

unfoldable pub between : ℕ → ℕ → Regex → Regex
unfolding times up_to
between lo hi r = seq (times lo r) (up_to (hi - lo) r)

-- `\s`, `\s*`, `\s+`, `\s{2,}`, `\S`
unfoldable pub space : Regex
unfolding is_space
space = char is_space

unfoldable pub spaces : Regex
unfolding space
spaces = star space

unfoldable pub spaces1 : Regex
unfolding space plus
spaces1 = plus space

unfoldable pub spaces2 : Regex
unfolding space at_least
spaces2 = at_least 2 space

unfoldable pub non_space : Regex
unfolding is_space
non_space = char (λ c. not (is_space c))

-- `.`
unfoldable pub dot : Regex
dot = char (λ c. not (c == 10))

-- `\d+`, `\d+` at least lazily, `[0-9A-Fa-f]`, `0x[0-9A-Fa-f]+`
unfoldable pub digit : Regex
unfolding is_digit
digit = char is_digit

unfoldable pub digits : Regex
unfolding digit plus
digits = plus digit

unfoldable pub is_hex : ℕ → Bool
unfolding is_digit
is_hex c = is_digit c || leb b'A' c && leb c b'F' || leb b'a' c && leb c b'f'

unfoldable pub hex_number : Regex
unfolding lit plus is_hex
hex_number = seq (lit "0x") (plus (char is_hex))

-- `[A-Za-z_]`, `[A-Za-z0-9_]`, `[A-Z]`, `[A-Z0-9_]`, `[a-z]`
unfoldable pub is_name_start : ℕ → Bool
unfolding is_upper is_lower
is_name_start c = is_upper c || is_lower c || c == b'_'

unfoldable pub name_start : Regex
unfolding is_name_start
name_start = char is_name_start

unfoldable pub name_char : Regex
unfolding is_word_char
name_char = char is_word_char

unfoldable pub cap : Regex
unfolding is_upper
cap = char is_upper

unfoldable pub is_cap_char : ℕ → Bool
unfolding is_upper is_digit
is_cap_char c = is_upper c || is_digit c || c == b'_'

unfoldable pub cap_char : Regex
unfolding is_cap_char
cap_char = char is_cap_char

unfoldable pub small : Regex
unfolding is_lower
small = char is_lower

-- `[A-Za-z_][A-Za-z0-9_]*`
unfoldable pub identifier : Regex
unfolding name_start name_char
identifier = seq name_start (star name_char)
