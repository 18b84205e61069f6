-- ===== src/Base/Regex/Iterate.antt =====
-- Every match of a pattern in a text, from the left, none over another: `re.finditer`, `re.split`,
-- `re.sub` and `re.findall`. No pattern that the program iterates matches the empty text; such a match
-- would end the loop here.
use libhw.Base.{
  List, Option, Text, [], drop, if◌then◌else◌, length, map, none, some, suc, take, zero, ℕ, ◌++◌,
  ◌+◌, ◌-◌, ◌==◌, ◌∷◌,
}
use libhw.Base.Regex.{Match, Regex, search_from}

-- `skipped` stands between this match and the one before it; `at` is `m.start()`, `whole` is `m.group(0)`.
pub record Occurrence : Type 0 where
  pub skipped : Text
  pub at : ℕ
  pub whole : Text
  pub found : Match

-- The matches, and the text behind the last. `before` is the character in front of `s`, and `pos` the
-- place of `s` in the whole text. A round passes at least one character.
unfoldable pub find_all : Regex → ℕ → ℕ → Option ℕ → Text → List Occurrence × Text
unfolding search_from
find_all r zero pos b s = ([], s)
find_all r (suc fuel) pos b s = elim (search_from r b s) [
  | none ↦ ([], s)
  | some (skipped, m) ↦
      let at = pos + length skipped in
      let size = length s - length skipped - length m.stop.rest in
      let (later, tail) = find_all r fuel (at + size) m.stop.before m.stop.rest in
      if size == 0 then ([], s) else (
        record {
          skipped = skipped;
          at = at;
          whole = take size (drop (length skipped) s);
          found = m;
        }
            ∷ later,
        tail,
      )
]

-- `re.finditer(r, s)`
unfoldable pub finditer : Regex → Text → List Occurrence
unfolding find_all
finditer r s = (find_all r (length s) 0 none s).0

-- `m.end()`
unfoldable pub end_of : Occurrence → ℕ
end_of f = f.at + length f.whole

unfoldable pub pieces : List Occurrence → Text → List Text
pieces [] tail = tail ∷ []
pieces (f ∷ fs) tail = f.skipped ∷ pieces fs tail

-- `re.split(r, s)`, of a pattern without groups
unfoldable pub split_at : Regex → Text → List Text
unfolding find_all pieces
split_at r s = let (fs, tail) = find_all r (length s) 0 none s in pieces fs tail

unfoldable pub replaced : (Occurrence → Text) → List Occurrence → Text → Text
replaced x [] tail = tail
replaced x (f ∷ fs) tail = f.skipped ++ (x f ++ replaced x fs tail)

-- `re.sub(r, x, s)`, where `x` makes a text of each match
unfoldable pub sub_with : Regex → (Occurrence → Text) → Text → Text
unfolding find_all replaced
sub_with r x s = let (fs, tail) = find_all r (length s) 0 none s in replaced x fs tail

-- `re.sub(r, x, s)`, of a text
unfoldable pub sub : Regex → Text → Text → Text
unfolding sub_with
sub r x s = sub_with r (λ f. x) s

-- `re.findall(r, s)`, of a pattern without groups
unfoldable pub findall : Regex → Text → List Text
unfolding finditer
findall r s = map (λ f. f.whole) (finditer r s)
