-- ===== src/Manifest/Cmsis/Header.antt =====
-- `parse_header` of tools/state/cmsis.py. `evaluate` is Python's `eval` of an arithmetic expression over
-- literals, as `int` of its value, and `none` where it raises; a negative value is not modelled.
use libhw.Base.{
  Bool, Dict, List, Option, Result, Text, [], all, codes, fold_result, has_key, if◌then◌else◌,
  insert, key_error, lookup, ltb, map, none, not, ok, or_else, range_from, require, some, strip,
  suc, truthy, upper, zero, ℕ, ◌&&◌, ◌*◌, ◌++◌, ◌+◌, ◌==◌, ◌>>=◌, ◌||◌, ◌∷◌,
}
use libhw.Base.Numeral.{decimal}
use libhw.Base.Regex.{boundary, found_in, group_of, matches, text_of_group}
use libhw.Base.Regex.Iterate.{Occurrence, finditer, sub, sub_with}
use libhw.Base.Regex.Patterns.{any_of, cat, exactly, is_hex, lit, opt}
use libhw.Manifest.Cmsis.{AddressDiff, AddressMap, CmsisReg, diff_against, put_address}
use libhw.Manifest.Cmsis.Patterns.{
  define_re, member_re, struct_base, struct_re, type_size, union_re,
}
use libhw.Model.Entry.{ManifestEntry}
use libhw.Sources.Lock.{is_empty}

-- `re.sub(rf"\b{k}\b", str(v), e)`, for each known symbol
unfoldable pub put_symbols : Dict ℕ → Text → Text
unfolding sub cat exactly decimal
put_symbols [] e = e
put_symbols ((k, v) ∷ known) e =
    put_symbols known (sub (cat (boundary ∷ exactly k ∷ boundary ∷ [])) (decimal v) e)

-- `[0-9xXa-fA-F+\-*/() ]+`
unfoldable pub is_arithmetic : ℕ → Bool
unfolding is_hex
is_arithmetic c =
    is_hex c
    || c == b'x'
    || c == b'X'
    || c == b'+'
    || c == b'-'
    || c == b'*'
    || c == b'/'
    || c == b'('
    || c == b')'
    || c == b' '

-- The type that has the size of the union's widest scalar.
unfoldable pub widest : Text → Dict ℕ → Option ℕ → Option ℕ
unfolding found_in cat exactly
widest body [] best = best
widest body ((t, n) ∷ ts) best =
    let found = found_in (cat (boundary ∷ exactly t ∷ boundary ∷ [])) body in
    widest body ts
      (if found then some (elim best [ none ↦ n | some b ↦ if ltb b n then n else b ]) else best)

unfoldable pub scalar_name : ℕ → Text
scalar_name n =
    if n == 1
    then codes "uint8_t"
    else if n == 2
    then codes "uint16_t"
    else if n == 4
    then codes "uint32_t"
    else codes "uint64_t"

-- `_flatten`
unfoldable pub flatten_union : Occurrence → Text
unfolding widest scalar_name text_of_group group_of truthy or_else
flatten_union f =
    let size : ℕ = elim (widest (text_of_group f.found "body") type_size none) [
      | none ↦ 4
      | some n ↦ n
    ] in
    let count = group_of f.found "count" in
    let cnt = if truthy count then codes "[" ++ or_else count [] ++ codes "]" else [] in
    scalar_name size ++ codes " " ++ text_of_group f.found "name" ++ cnt ++ codes ";"

-- `R[E]?SERVED|PADDING`, at the start of the name
unfoldable pub is_reserved_name : Text → Bool
unfolding matches upper any_of cat lit opt
is_reserved_name name =
    matches (any_of (cat (lit "R" ∷ opt (lit "E") ∷ lit "SERVED" ∷ []) ∷ lit "PADDING" ∷ []))
      (upper name)

-- The registers of one member: `k` counts up to `count`.
unfoldable pub element_name : Text → ℕ → ℕ → Text
unfolding decimal
element_name name count k = if count == 1 then name else name ++ codes "[" ++ decimal k ++ codes "]"

unfoldable pub put_elements :
    Text → Text → ℕ → ℕ → ℕ → List ℕ → AddressMap CmsisReg → AddressMap CmsisReg
unfolding put_address element_name
put_elements struct name start size count [] out = out
put_elements struct name start size count (k ∷ ks) out =
    let addr = start + k * size in
    put_elements struct name start size count ks (
      put_address addr
        (record {
          address = addr;
          struct_name = struct;
          field = element_name name count k;
          width = size * 8;
        })
        out)

-- A member of a struct, as the pattern finds it.
pub record Member : Type 0 where
  pub type : Text
  pub name : Text
  pub count : Option Text

unfoldable pub member_of : Occurrence → Member
unfolding text_of_group group_of
member_of f = record {
  type = text_of_group f.found "type";
  name = text_of_group f.found "name";
  count = group_of f.found "count";
}

-- `c if c else 1`
unfoldable pub positive_or_one : Option ℕ → ℕ
positive_or_one none = 1
positive_or_one (some zero) = 1
positive_or_one (some (suc n)) = suc n

-- The address that the struct is mapped at.
unfoldable pub base_of : Text → Dict ℕ → Option ℕ
unfolding lookup
base_of struct bases = elim (lookup struct struct_base) [
  | none ↦ none
  | some symbol ↦ lookup symbol bases
]

module _ (evaluate : Text → Option ℕ) where
  -- `_eval_base(expr, known)`
  unfoldable pub eval_base : Text → Dict ℕ → Option ℕ
  unfolding sub lit strip put_symbols is_empty is_arithmetic
  eval_base expr known =
      let e = put_symbols known (strip (sub (lit "U") [] (sub (lit "UL") [] expr))) in
      if not (is_empty e) && all is_arithmetic e then evaluate e else none

  -- One round over the definitions.
  unfoldable pub resolve_round : List Occurrence → Dict ℕ → Dict ℕ
  unfolding text_of_group has_key eval_base insert
  resolve_round [] bases = bases
  resolve_round (f ∷ fs) bases =
      let name = text_of_group f.found "name" in
      resolve_round fs (
        if has_key name bases
        then bases
        else elim (eval_base (text_of_group f.found "expr") bases) [
          | none ↦ bases
          | some v ↦ insert name v bases
        ])

  -- `for _ in range(4): ...`
  unfoldable pub resolve_bases : ℕ → List Occurrence → Dict ℕ → Dict ℕ
  unfolding resolve_round
  resolve_bases zero fs bases = bases
  resolve_bases (suc n) fs bases = resolve_bases n fs (resolve_round fs bases)

  unfoldable pub count_of_member : Member → Dict ℕ → ℕ
  unfolding truthy or_else eval_base positive_or_one
  count_of_member mm bases =
      if truthy mm.count then positive_or_one (eval_base (or_else mm.count []) bases) else 1

  -- The members from an offset on: the registers, and the offset behind the last member. A signed type has
  -- no size, so it raises `KeyError`.
  unfoldable pub put_members :
      Text → ℕ → Dict ℕ → List Member → ℕ → AddressMap CmsisReg → Result (ℕ × AddressMap CmsisReg)
  unfolding lookup count_of_member is_reserved_name put_elements
  put_members struct base bases [] offset out = ok (offset, out)
  put_members struct base bases (mm ∷ ms) offset out = do
    size ← require (lookup mm.type type_size) key_error
    let count = count_of_member mm bases
    let filled = put_elements struct mm.name (base + offset) size count (range_from 0 count) out
    put_members struct base bases ms (offset + size * count)
        (if is_reserved_name mm.name then out else filled)

  -- A struct without a known base is passed over.
  unfoldable pub put_mapped :
      Dict ℕ → Text → Text → Option ℕ → AddressMap CmsisReg → Result (AddressMap CmsisReg)
  unfolding put_members finditer member_re member_of sub_with union_re flatten_union
  put_mapped bases struct body none out = ok out
  put_mapped bases struct body (some base) out = do
    let flat = sub_with union_re flatten_union body
    (offset, filled) ← put_members struct base bases (map member_of (finditer member_re flat)) 0 out
    ok filled

  unfoldable pub put_struct :
      Dict ℕ → Occurrence → AddressMap CmsisReg → Result (AddressMap CmsisReg)
  unfolding put_mapped text_of_group base_of
  put_struct bases f out =
      let struct = text_of_group f.found "name" in
      put_mapped bases struct (text_of_group f.found "body") (base_of struct bases) out

  unfoldable pub header_bases : Text → Dict ℕ
  unfolding resolve_bases finditer define_re
  header_bases text = resolve_bases 4 (finditer define_re text) []

  -- `parse_header(path)`, of the header's text
  unfoldable pub parse_header : Text → Result (AddressMap CmsisReg)
  unfolding fold_result put_struct header_bases finditer struct_re
  parse_header text = fold_result (put_struct (header_bases text)) (finditer struct_re text) []

  -- `main` of tools/state_cmsis_diff.py, of the header's text and the entries of the manifests
  unfoldable pub compare_header : Option Text → List ManifestEntry → Result (Option AddressDiff)
  unfolding parse_header diff_against
  compare_header none entries = ok none
  compare_header (some text) entries = do
    cmsis ← parse_header text
    ok (some (diff_against entries cmsis))
