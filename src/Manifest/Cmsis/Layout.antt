-- ===== src/Manifest/Cmsis/Layout.antt =====
-- Where the registers of a header lie.
use libhw.Base.{
  ==_iff, >>=-eq-ok, All, All-mono, Bool-cases, Dict, List, Option, Text, [], arith, count,
  fold_result_inv, if◌then◌else◌, inl, inr, key_error, lookup, map, none, ok, ok-injective,
  range_from, refl, require, some, subst, suc, sym, zero, ℕ, ◌*◌, ◌+◌, ◌==◌, ◌∷◌, ◌≡◌, ◌≤◌, ◌⊎◌,
}
use libhw.Base.Regex.{text_of_group}
use libhw.Base.Regex.Iterate.{finditer, sub_with}
use libhw.Manifest.Cmsis.{AddressMap, CmsisReg, put_address}
use libhw.Manifest.Cmsis.Header.{
  Member, base_of, count_of_member, flatten_union, header_bases, is_reserved_name, member_of,
  parse_header, put_elements, put_mapped, put_members, put_struct,
}
use libhw.Manifest.Cmsis.Partition.{NoRepeat, put_address-NoRepeat}
use libhw.Manifest.Cmsis.Patterns.{member_re, struct_re, type_size, union_re}

-- The register is at its key, and between two addresses.
abbrev pub IsWithin : ℕ → ℕ → ℕ × CmsisReg → Type 0
IsWithin low high (a, r) =
    (r.address ≡ a) × (low ≤ a) × (size : ℕ) × (r.width ≡ size * 8) × (a + size ≤ high)

-- Each entry was there before, or lies within the bounds.
abbrev IsPlaced : ℕ → ℕ → (ℕ × CmsisReg → Type 0) → AddressMap CmsisReg → Type 0
IsPlaced low high P out = All (λ e. P e ⊎ IsWithin low high e) out

put_address-All {ℓ κ} :
    {V : Type ℓ} (P : ℕ × V → Type κ) (a : ℕ) (v : V) (d : AddressMap V)
    → ((b : ℕ) → b ≡ a → P (b, v))
    → All P d
    → All P (put_address a v d)
unfolding put_address
put_address-All P a v [] p h = (p a refl, tt)
put_address-All P a v ((b, w) ∷ d) p h = elim (Bool-cases (b == a)) [
  | inl e ↦ rw e (p b ((==_iff b a).0 e), h.1)
  | inr e ↦ rw e (h.0, put_address-All P a v d p h.1)
]

split_times :
    (lo n size : ℕ)
    → ((lo + suc n) * size ≡ lo * size + size + n * size)
      × ((lo + 1 + n) * size ≡ lo * size + size + n * size)
split_times lo n size = (grind arith, grind arith)

module _ (P : ℕ × CmsisReg → Type 0) (struct name : Text) (low start high size count : ℕ) where
  put_elements-IsPlaced :
      (lo n : ℕ) (out : AddressMap CmsisReg)
      → low ≤ start
      → start + (lo + n) * size ≤ high
      → IsPlaced low high P out
      → IsPlaced low high P (put_elements struct name start size count (range_from lo n) out)
  unfolding put_elements
  put_elements-IsPlaced lo zero out below above h = h
  put_elements-IsPlaced lo (suc n) out below above h =
      put_elements-IsPlaced (lo + 1) n _ below (omega (arith, split_times lo n size, above)) (
        put_address-All (λ e. P e ⊎ IsWithin low high e) (start + lo * size) _ out
          (λ b e. inr (
            sym e,
            omega (arith, e, below),
            size,
            refl,
            omega (arith, e, above, split_times lo n size),
          ))
          h)

room :
    (base offset size count end : ℕ)
    → offset + size * count ≤ end
    → base + offset + (0 + count) * size ≤ base + end
room base offset size count end h = grind arith

put_elements-NoRepeat :
    (struct name : Text) (start size count : ℕ) (ks : List ℕ) (out : AddressMap CmsisReg)
    → NoRepeat out
    → NoRepeat (put_elements struct name start size count ks out)
unfolding put_elements
put_elements-NoRepeat struct name start size count [] out h = h
put_elements-NoRepeat struct name start size count (k ∷ ks) out h =
    put_elements-NoRepeat struct name start size count ks _
      (put_address-NoRepeat (start + k * size) _ out h)

module _ (evaluate : Text → Option ℕ) (struct : Text) (base : ℕ) (bases : Dict ℕ) where
  -- What a member adds, and where the next one starts.
  next_member :
      (mm : Member) (ms : List Member) (offset : ℕ) (out filled : AddressMap CmsisReg) (end : ℕ)
      → put_members evaluate struct base bases (mm ∷ ms) offset out ≡ ok (end, filled)
      → (size : ℕ) × (put_members evaluate struct base bases ms
            (offset + size * count_of_member evaluate mm bases)
            (if is_reserved_name mm.name
              then out
              else put_elements struct mm.name
                  (base + offset)
                  size
                  (count_of_member evaluate mm bases)
                  (range_from 0 (count_of_member evaluate mm bases))
                  out)
          ≡ ok (end, filled))
  unfolding put_members
  next_member mm ms offset out filled end h =
      let (size, _, rest) = >>=-eq-ok (require (lookup mm.type type_size) key_error) _ h in
      (size, rest)

  put_members-grows :
      (ms : List Member) (offset : ℕ) (out filled : AddressMap CmsisReg) (end : ℕ)
      → put_members evaluate struct base bases ms offset out ≡ ok (end, filled)
      → offset ≤ end
  unfolding put_members
  put_members-grows [] offset out filled end h =
      subst (λ r. offset ≤ r.0) (ok-injective (offset, out) (end, filled) h) (omega arith)
  put_members-grows (mm ∷ ms) offset out filled end h =
      let (size, rest) = next_member mm ms offset out filled end h in
      omega (arith, put_members-grows ms _ _ filled end rest)

  put_members-IsPlaced :
      (P : ℕ × CmsisReg → Type 0) (low : ℕ) (ms : List Member) (offset : ℕ)
      (out filled : AddressMap CmsisReg) (end : ℕ)
      → low ≤ base + offset
      → put_members evaluate struct base bases ms offset out ≡ ok (end, filled)
      → IsPlaced low (base + end) P out
      → IsPlaced low (base + end) P filled
  unfolding put_members
  put_members-IsPlaced P low [] offset out filled end below h placed =
      subst (λ r. IsPlaced low (base + end) P r.1) (ok-injective (offset, out) (end, filled) h)
        placed
  put_members-IsPlaced P low (mm ∷ ms) offset out filled end below h placed =
      let (size, rest) = next_member mm ms offset out filled end h in
      let count = count_of_member evaluate mm bases in
      let grows = put_members-grows ms (offset + size * count) _ filled end rest in
      put_members-IsPlaced P low ms (offset + size * count) _ filled end (omega (arith, below)) rest
        (elim (Bool-cases (is_reserved_name mm.name)) [
          | inl e ↦ rw e placed
          | inr e ↦ rw e (
              put_elements-IsPlaced P struct mm.name low (base + offset) (base + end) size count 0
                count out below (room base offset size count end grows) placed)
        ])

  put_members-NoRepeat :
      (ms : List Member) (offset : ℕ) (out filled : AddressMap CmsisReg) (end : ℕ)
      → put_members evaluate struct base bases ms offset out ≡ ok (end, filled)
      → NoRepeat out
      → NoRepeat filled
  unfolding put_members
  put_members-NoRepeat [] offset out filled end h new =
      subst (λ r. NoRepeat r.1) (ok-injective (offset, out) (end, filled) h) new
  put_members-NoRepeat (mm ∷ ms) offset out filled end h new =
      let (size, rest) = next_member mm ms offset out filled end h in
      let count = count_of_member evaluate mm bases in
      put_members-NoRepeat ms (offset + size * count) _ filled end rest
        (elim (Bool-cases (is_reserved_name mm.name)) [
          | inl e ↦ rw e new
          | inr e ↦ rw e (
              put_elements-NoRepeat struct mm.name (base + offset) size count (range_from 0 count)
                out new)
        ])

-- The registers of a struct, read into an empty map, lie between the base and the end of the struct, each
-- with its width and at its own address, and no two have one address.
pub put_members-IsLaidOut :
    (evaluate : Text → Option ℕ) (struct : Text) (base : ℕ) (bases : Dict ℕ) (ms : List Member)
    (end : ℕ) (out : AddressMap CmsisReg)
    → put_members evaluate struct base bases ms 0 [] ≡ ok (end, out)
    → All (IsWithin base (base + end)) out × NoRepeat out
put_members-IsLaidOut evaluate struct base bases ms end out h = (
  All-mono (λ e p. elim p [ inl never ↦ absurd never | inr within ↦ within ]) out
      (put_members-IsPlaced evaluate struct base bases (λ _. ⊥) base ms 0 [] out end (omega arith) h
        tt),
  put_members-NoRepeat evaluate struct base bases ms 0 [] out end h tt,
)

put_mapped-NoRepeat :
    (evaluate : Text → Option ℕ) (bases : Dict ℕ) (struct body : Text) (base : Option ℕ)
    (out filled : AddressMap CmsisReg)
    → put_mapped evaluate bases struct body base out ≡ ok filled
    → NoRepeat out
    → NoRepeat filled
unfolding put_mapped
put_mapped-NoRepeat evaluate bases struct body none out filled h new =
    subst NoRepeat (ok-injective out filled h) new
put_mapped-NoRepeat evaluate bases struct body (some base) out filled h new =
    let ms = map member_of (finditer member_re (sub_with union_re flatten_union body)) in
    let ((end, put), first, same) =
      >>=-eq-ok (put_members evaluate struct base bases ms 0 out) _ h in
    subst NoRepeat (ok-injective put filled same)
      (put_members-NoRepeat evaluate struct base bases ms 0 out put end first new)

pub parse_header-NoRepeat :
    (evaluate : Text → Option ℕ) (text : Text) (cmsis : AddressMap CmsisReg)
    → parse_header evaluate text ≡ ok cmsis
    → NoRepeat cmsis
unfolding parse_header put_struct
parse_header-NoRepeat evaluate text cmsis h =
    let bases = header_bases evaluate text in
    fold_result_inv NoRepeat (put_struct evaluate bases)
      (λ f out filled e new.
        put_mapped-NoRepeat evaluate bases (text_of_group f.found "name")
          (text_of_group f.found "body") (base_of (text_of_group f.found "name") bases) out filled e
          new)
      (finditer struct_re text) [] cmsis h tt
