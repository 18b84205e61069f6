-- ===== src/Prose/Names.antt =====
-- tools/state/prose.py: the names that a match of the scan gives, and the matches that it passes over.
pub mod Bounds
use libhw.Base.{
  Bool, List, Option, Text, [], all, if◌then◌else◌, is_digit, keep, length, lookup, ltb, map,
  member, none, not, or_else, range_from, some, strip, text_eq, ℕ, ◌&&◌, ◌++◌, ◌+◌, ◌-◌, ◌||◌, ◌∷◌,
}
use libhw.Base.Numeral.{decimal, int_10}
use libhw.Base.Regex.{Match, fullmatches, group_of, text_of_group}
use libhw.Base.Regex.Iterate.{Occurrence, split_at}
use libhw.Base.Regex.Texts.{lower}
use libhw.Model.Identifier.{strip_underscores}
use libhw.Prose.Patterns.{
  Kind, comma, comma_set, family, instr_ref, number_words, numbered_register, phrase, range,
  stopwords, through,
}
use libhw.Sources.Lock.{is_empty}

-- `_expand(base, lo, hi, limit)`
unfoldable pub expand : Text → ℕ → ℕ → ℕ → List Text
unfolding is_empty decimal
expand base lo hi limit =
    if is_empty base || ltb hi lo || ltb limit (hi - lo)
    then []
    else map (λ i. base ++ decimal i) (range_from lo (hi + 1 - lo))

-- `int(s)` of a group that holds digits
unfoldable pub number_of : Text → ℕ
unfolding int_10
number_of s = elim (int_10 s) [ none ↦ 0 | some n ↦ n ]

-- `s.isdigit()`
unfoldable pub all_digits : Text → Bool
unfolding is_empty is_digit
all_digits s = not (is_empty s) && all is_digit s

-- Each `..._names` is the branch of one kind: the names, or `none` where the branch has `continue`.
unfoldable pub range_names : Match → Option (List Text)
unfolding text_of_group strip_underscores or_else is_empty member expand number_of group_of text_eq
range_names m =
    let base = strip_underscores (or_else (group_of m "base") (text_of_group m "base2")) in
    let b2 = strip_underscores (text_of_group m "base2") in
    let names =
      expand base (number_of (text_of_group m "lo")) (number_of (text_of_group m "hi")) 512 in
    if is_empty base || member base stopwords
    then none
    else if not (is_empty b2) && not (text_eq b2 base)
    then none
    else if is_empty names
    then none
    else some names

unfoldable pub count_of : Match → ℕ
unfolding lower text_of_group lookup all_digits number_of
count_of m =
    let c = lower (text_of_group m "count") in
    elim (lookup c number_words) [ some n ↦ n | none ↦ if all_digits c then number_of c else 0 ]

unfoldable pub count_names : Match → Option (List Text)
unfolding count_of
count_names m = if ltb (count_of m) 2 || ltb 512 (count_of m) then none else some []

unfoldable pub single_name : Match → Option (List Text)
unfolding text_of_group member
single_name m =
    let nm = text_of_group m "name" in
    if member nm stopwords || ltb (length nm) 2 then none else some (nm ∷ [])

unfoldable pub is_listed : Text → Bool
unfolding fullmatches numbered_register member
is_listed t = fullmatches numbered_register t && not (member t stopwords)

unfoldable pub listed_names : Text → Option (List Text)
unfolding split_at comma strip is_listed
listed_names whole =
    let names = keep is_listed (map strip (split_at comma whole)) in
    if ltb (length names) 3 then none else some names

unfoldable pub names_of : Kind → Occurrence → Option (List Text)
unfolding range_names count_names single_name listed_names
names_of range f = range_names f.found
names_of through f = range_names f.found
names_of Kind.count f = count_names f.found
names_of phrase f = some []
names_of family f = single_name f.found
names_of instr_ref f = single_name f.found
names_of comma_set f = listed_names f.whole
