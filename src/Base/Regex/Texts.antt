-- ===== src/Base/Regex/Texts.antt =====
-- Texts cut by a pattern: `re.split(r"\s{2,}", s)`, `s.split(None, 1)`, `re.sub(r"\s+", x, s)`.
use libhw.Base.{
  Bool, List, Option, Text, [], false, if◌then◌else◌, is_space, is_upper, leb, lstrip_by, map, none,
  not, some, starts_with, suc, true, zero, ℕ, ◌++◌, ◌+◌, ◌-◌, ◌==◌, ◌||◌, ◌∷◌,
}

unfoldable pub cons_first : ℕ → List Text → List Text
cons_first c [] = (c ∷ []) ∷ []
cons_first c (x ∷ xs) = (c ∷ x) ∷ xs

-- The text behind the blanks that are at its start.
unfoldable pub count_spaces : Text → ℕ
unfolding is_space
count_spaces [] = 0
count_spaces (c ∷ s) = if is_space c then suc (count_spaces s) else 0

-- `re.split(r"\s{2,}", s)`: `skip` characters of a separator are still to be passed over.
unfoldable pub split_columns : ℕ → Text → List Text
unfolding cons_first count_spaces
split_columns skip [] = [] ∷ []
split_columns (suc skip) (c ∷ s) = split_columns skip s
split_columns zero (c ∷ s) =
    let run = count_spaces (c ∷ s) in
    let cut = split_columns (run - 1) s in
    let kept = split_columns 0 s in if leb 2 run then [] ∷ cut else cons_first c kept

-- The characters up to the first that the test refuses, and the rest.
unfoldable pub span : (ℕ → Bool) → Text → Text × Text
span p [] = ([], [])
span p (c ∷ s) = let (taken, rest) = span p s in if p c then (c ∷ taken, rest) else ([], c ∷ s)

-- `s.split(None, 1)`: the first word, and what is behind it without blanks on its left.
unfoldable pub first_word : Text → Option (Text × Text)
unfolding lstrip_by span is_space
first_word s = elim (lstrip_by is_space s) [
  | [] ↦ none
  | (c ∷ t) ↦
      let (word, rest) = span (λ d. not (is_space d)) (c ∷ t) in
      some (word, lstrip_by is_space rest)
]

-- `re.sub(r"\s+", x, s)`: `inside` tells whether the character before was a blank.
unfoldable pub join_words : Bool → Text → Text → Text
unfolding is_space
join_words inside x [] = []
join_words inside x (c ∷ s) =
    let in_gap = join_words true x s in
    let in_word = join_words false x s in
    if is_space c then (if inside then in_gap else x ++ in_gap) else c ∷ in_word

-- `p in s`
unfoldable pub contains : Text → Text → Bool
unfolding starts_with
contains s [] = true
contains [] (x ∷ p) = false
contains (c ∷ s) (x ∷ p) = starts_with (c ∷ s) (x ∷ p) || contains s (x ∷ p)

-- `s.endswith(c)`, of one character
unfoldable pub ends_in : ℕ → Text → Bool
ends_in c [] = false
ends_in c (d ∷ []) = d == c
ends_in c (d ∷ e ∷ s) = ends_in c (e ∷ s)

-- `s.lower()` of an ASCII text
unfoldable pub lower : Text → Text
unfolding is_upper
lower s = map (λ c. if is_upper c then c + 32 else c) s
