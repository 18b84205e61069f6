-- ===== src/Profiles/Expand.antt =====
-- The helpers of tools/state/profiles.py that turn a name into registers: `_clean_name`, `_is_reserved`,
-- `_expand_slice` and `_expand_placeholder`.
use libhw.Base.{
  Bool, List, Text, [], codes, if◌then◌else◌, leb, ltb, map, member, none, range_from, some,
  starts_with, strip, text_eq, ℕ, ◌&&◌, ◌*◌, ◌++◌, ◌+◌, ◌-◌, ◌/◌, ◌||◌, ◌∷◌,
}
use libhw.Base.Numeral.{address_text, decimal}
use libhw.Base.Regex.{boundary, found_in, fullmatch, match, search, text_of_group}
use libhw.Base.Regex.Patterns.{cat, exactly}
use libhw.Base.Regex.Texts.{lower}
use libhw.Pdf.Range.{addresses, number}
use libhw.Profiles.Patterns.{described_range_re, noted_name_re, slice_re}

-- `_clean_name`
unfoldable pub clean_name : Text → Text → Text
unfolding strip fullmatch noted_name_re text_of_group text_eq found_in cat exactly
clean_name value description =
    let v = strip value in
    elim (fullmatch noted_name_re v) [
      | none ↦ v
      | some m ↦
          let note = text_of_group m "2" in
          if (text_eq note (codes "n") || text_eq note (codes "x"))
            && found_in (cat (boundary ∷ exactly v ∷ boundary ∷ [])) description
          then v
          else text_of_group m "1"
    ]

-- `_is_reserved`
unfoldable pub is_reserved_row : Text → Text → Bool
unfolding strip lower member starts_with
is_reserved_row name desc =
    member (lower (strip name)) (codes "-" ∷ codes "reserved" ∷ (b'-' ∷ b'-' ∷ []) ∷ [])
    || starts_with (lower (strip desc)) (codes "reserved")

-- `(end - start) // (count - 1) if count > 1 and end > start else 4`
unfoldable pub stride_or_4 : ℕ → ℕ → ℕ → ℕ
stride_or_4 start end n = if leb 2 n && ltb start end then (end - start) / (n - 1) else 4

-- The registers `base` with the numbers `lo` to `hi`: none if `hi` is smaller.
unfoldable pub array : Text → ℕ → ℕ → ℕ → ℕ → List (Text × Text)
unfolding address_text decimal stride_or_4
array base lo hi start end =
    let n = (hi + 1) - lo in
    map (λ k. (address_text (start + k * stride_or_4 start end n), base ++ decimal (lo + k)))
      (range_from 0 n)

-- `_expand_slice`
unfoldable pub expand_slice : Text → Text → List (Text × Text)
unfolding match slice_re strip addresses array text_of_group number
expand_slice name addr_cell = elim (match slice_re (strip name)) [
  | none ↦ []
  | some m ↦ elim (addresses addr_cell) [
    | none ↦ []
    | some (start, end) ↦
        array (text_of_group m "base") (number (text_of_group m "lo"))
          (number (text_of_group m "hi")) start end
  ]
]

-- `_expand_placeholder`
unfoldable pub expand_placeholder : Text → Text → List (Text × Text)
unfolding search described_range_re text_eq addresses array text_of_group number
expand_placeholder desc addr_cell = elim (search described_range_re desc) [
  | none ↦ []
  | some (before, m) ↦
      if text_eq (text_of_group m "1") (text_of_group m "3")
      then elim (addresses addr_cell) [
        | none ↦ []
        | some (start, end) ↦
            array (text_of_group m "1") (number (text_of_group m "2"))
              (number (text_of_group m "4")) start end
      ]
      else []
]
