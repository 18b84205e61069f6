-- ===== src/Profiles/Summary/Given.antt =====
-- A line that rejects nothing gives a record, unless it matches no pattern.
use libhw.Base.{
  Bool, Bool-cases, List, Option-cases, Text, [], ap, arith, codes, false, if◌then◌else◌, inl, inr,
  length, length-append, none, refl, strip, text_eq, ℕ, ◌&&◌, ◌+◌, ◌∷◌, ◌≡◌, ◌≤◌, ◌⊎◌,
}
use libhw.Base.Regex.{Match, Regex, is_some, match, matches, text_of_group}
use libhw.Importer.Rules.{RawRecord}
use libhw.Profiles.Patterns.{row_re}
use libhw.Profiles.Row.{
  LineResult, add_pair, desc_of, is_identifier, joined_row, name_row, named_record, or_pairs,
  pairs_of, parse_line, rejection, reserved_match, reserved_row, reset_of, rest_of, row_line,
  row_name, sort_pairs, type_of,
}
use libhw.Sources.Lock.{is_empty}

length-add_pair :
    (page : ℕ) (line typ reset desc a n : Text) (out : LineResult)
    → let r = add_pair page line typ reset desc a n out in
      length r.records + length r.rejected ≡ length out.records + length out.rejected + 1
unfolding add_pair
length-add_pair page line typ reset desc a n out =
    let here : List RawRecord = named_record n a typ reset desc page ∷ [] in
    let refused : List (ℕ × Text) = (page, rejection line n) ∷ [] in
    elim (Bool-cases (is_identifier n)) [
      | inl e ↦ rw e (omega (arith, length-append out.records here))
      | inr e ↦ rw e (omega (arith, length-append out.rejected refused))
    ]

length-sort_pairs :
    (page : ℕ) (line typ reset desc : Text) (pairs : List (Text × Text)) (out : LineResult)
    → let r = sort_pairs page line typ reset desc pairs out in
      length r.records + length r.rejected ≡ length out.records + length out.rejected + length pairs
unfolding sort_pairs
length-sort_pairs page line typ reset desc [] out = omega arith
length-sort_pairs page line typ reset desc ((a, n) ∷ pairs) out = omega (
  arith,
  length-sort_pairs page line typ reset desc pairs
      (add_pair page line typ reset desc a (strip n) out),
  length-add_pair page line typ reset desc a (strip n) out,
)

is_empty-or_pairs :
    (xs ys : List (Text × Text)) → is_empty (or_pairs xs ys) ≡ (is_empty xs && is_empty ys)
unfolding or_pairs is_empty
is_empty-or_pairs [] ys = refl
is_empty-or_pairs (x ∷ xs) ys = refl

and_false : (a : Bool) → (a && false) ≡ false
and_false a = ground arith

is_empty-pairs_of : (addr name desc : Text) → is_empty (pairs_of addr name desc) ≡ false
unfolding pairs_of is_empty
is_empty-pairs_of addr name desc =
    rw
      (
        is_empty-or_pairs, is_empty-or_pairs, is_empty-or_pairs, is_empty-or_pairs, and_false,
        and_false, and_false, and_false,
      )
      refl

length-is_empty {ℓ} : {A : Type ℓ} (xs : List A) → is_empty xs ≡ false → 1 ≤ length xs
unfolding is_empty
length-is_empty [] h = cc
length-is_empty (x ∷ xs) h = omega arith

is_empty-length {ℓ} : {A : Type ℓ} (xs : List A) → 1 ≤ length xs → is_empty xs ≡ false
unfolding is_empty
is_empty-length [] h = absurd (omega arith)
is_empty-length (x ∷ xs) h = refl

abbrev Given : LineResult → Type 0
Given r = r.rejected ≡ [] → is_empty r.records ≡ false

-- The pairs of a row that rejects none of them are its records, and there is one at least.
sort_pairs-Given :
    (page : ℕ) (line typ reset desc addr name : Text) (absorbed : List ℕ)
    → Given (
        sort_pairs page line typ reset desc
          (pairs_of addr name desc)
          (record { absorbed = absorbed; records = []; rejected = [] }))
sort_pairs-Given page line typ reset desc addr name absorbed h =
    let start : LineResult = record { absorbed = absorbed; records = []; rejected = [] } in
    let r = sort_pairs page line typ reset desc (pairs_of addr name desc) start in
    let balance = length-sort_pairs page line typ reset desc (pairs_of addr name desc) start in
    let none_rejected : length r.rejected ≡ 0 = ap length h in
    is_empty-length r.records (
      omega (
        arith,
        balance,
        none_rejected,
        length-is_empty (pairs_of addr name desc) (is_empty-pairs_of addr name desc),
      ))

name_row-Given :
    (i page : ℕ) (line : Text) (after : List Text) (m : Match)
    → Given (name_row i page line after m)
unfolding name_row
name_row-Given i page line after m =
    sort_pairs-Given page line (type_of m) (reset_of (rest_of m)) (desc_of (rest_of m))
      (joined_row m after).0 (row_name (joined_row m after).1)
      (if (joined_row m after).2 then (i + 1) ∷ [] else [])

row_line-Given :
    (i page : ℕ) (line : Text) (after : List Text) (m : Match)
    → Given (row_line i page line after m)
unfolding row_line reserved_row is_empty
row_line-Given i page line after m h =
    elim (Bool-cases (text_eq (strip (text_of_group m "name")) (codes "-"))) [
      | inl e ↦ rw e refl
      | inr e ↦ rw e (name_row-Given i page line after m (rw e at h))
    ]

matches-none : (r : Regex) (s : Text) → match r s ≡ none → matches r s ≡ false
unfolding matches is_some
matches-none r s h = rw h refl

-- A line that gives no record and rejects nothing matches no row, and is reserved only in shape.
pub parse_line-Given :
    (i page : ℕ) (line : Text) (after : List Text)
    → (parse_line i page line after).rejected ≡ []
    → (is_empty (parse_line i page line after).records ≡ false)
      ⊎ ((reserved_match line ≡ none) × (matches row_re line ≡ false))
unfolding parse_line reserved_row is_empty
parse_line-Given i page line after h = elim (Option-cases (reserved_match line)) [
  | inr (m, e) ↦ rw e (inl refl)
  | inl e ↦ elim (Option-cases (match row_re line)) [
    | inl n ↦ inr (e, matches-none row_re line n)
    | inr (m, f) ↦ rw (e, f) (inl (row_line-Given i page line after m (rw (e, f) at h)))
  ]
]
