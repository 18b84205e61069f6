-- ===== src/Pdf/Range/Elements.antt =====
-- The registers of a range, read back.
use libhw.Base.{
  Bool-cases, List, Text, [], ap, arith, false, get_elem?, inl, inr, leb, leb→le, length,
  length-map, le→leb, ltb, map, range_from, refl, some, subst, suc, zero, ℕ, ◌*◌, ◌++◌, ◌+◌, ◌-◌,
  ◌/◌, ◌<◌, ◌∙◌, ◌∷◌, ◌≡◌, ◌≤◌, ◌⊎◌,
}
use libhw.Base.Numeral.{decimal, int_16}
use libhw.Base.Numeral.Hex.{int_16-address_text}
use libhw.Pdf.Range.{addresses, element_address, elements, expand_range, name_range, stride_up}

get_elem?-map {ℓ κ} :
    {A : Type ℓ} {B : Type κ} (f : A → B) (xs : List A) (k : ℕ) (x : A)
    → get_elem? xs k ≡ some x
    → get_elem? (map f xs) k ≡ some (f x)
get_elem?-map f [] k x h = cc
get_elem?-map f (y ∷ xs) zero x h = cc
get_elem?-map f (y ∷ xs) (suc k) x h = get_elem?-map f xs k x h

get_elem?-range_from : (lo n k : ℕ) → k < n → get_elem? (range_from lo n) k ≡ some (lo + k)
get_elem?-range_from lo zero k h = absurd (omega arith)
get_elem?-range_from lo (suc n) zero h = ap some (omega arith)
get_elem?-range_from lo (suc n) (suc k) h =
    get_elem?-range_from (lo + 1) n k (omega arith) ∙ ap some (omega arith)

length-range_from : (lo n : ℕ) → length (range_from lo n) ≡ n
length-range_from lo zero = refl
length-range_from lo (suc n) = ap suc (length-range_from (lo + 1) n)

div_unique : (a m d : ℕ) → m * d ≤ a → a < m * (d + 1) → a / m ≡ d
div_unique a m d low high = grind arith

stride_up_unique :
    (lo hi m d : ℕ) → lo + m * d ≤ hi → hi < lo + m * (d + 1) → stride_up lo hi (m + 1) ≡ d
unfolding stride_up
stride_up_unique lo hi zero d low high = absurd (omega arith)
stride_up_unique lo hi (suc m) d low high =
    let back : suc m + 1 - 1 ≡ suc m = omega arith in
    rw (le→leb 2 (suc m + 1) (omega arith), back)
      (div_unique (hi - lo) (suc m) d (omega (arith, low)) (omega (arith, low, high)))

ltb-le : (a b : ℕ) → a ≤ b → ltb b a ≡ false
ltb-le a b h = ground arith

element_address-up :
    (lo hi n k : ℕ)
    → lo ≤ hi
    → int_16 (element_address lo hi n k) ≡ some (lo + k * stride_up lo hi n)
unfolding element_address
element_address-up lo hi n k h =
    rw (ltb-le lo hi h) (int_16-address_text (lo + k * stride_up lo hi n))

-- One register of a range: its name is the base with a number, and its address, read back, is `address`.
abbrev pub IsElement : List (Text × Text) → ℕ → Text → ℕ → Type 0
IsElement pairs k name address =
    (a : Text) × (get_elem? pairs k ≡ some (a, name)) × (int_16 a ≡ some address)

elements-IsElement :
    (lo hi n : ℕ) (base : Text) (first k : ℕ)
    → lo ≤ hi
    → k < n
    → IsElement
        (elements lo hi n base first)
        k
        (base ++ decimal (first + k))
        (lo + k * stride_up lo hi n)
unfolding elements
elements-IsElement lo hi n base first k le lt = (
  element_address lo hi n k,
  get_elem?-map (λ k. (element_address lo hi n k, base ++ decimal (first + k))) (range_from 0 n) k k
      (get_elem?-range_from 0 n k lt ∙ ap some (omega arith)),
  element_address-up lo hi n k le,
)

collapsed : (lo hi m d : ℕ) → m ≡ 0 → lo + m * d ≤ hi → hi < lo + m * (d + 1) → ⊥
collapsed lo hi zero d e low high = omega arith
collapsed lo hi (suc m) d e low high = omega arith

le_cases : (a b : ℕ) → (a ≤ b) ⊎ (b < a)
le_cases a b = elim (Bool-cases (leb a b)) [
  | inl h ↦ inl (leb→le a b h)
  | inr h ↦ inr (ground arith)
]

is_rising :
    (lo hi first last d : ℕ)
    → lo + (last - first) * d ≤ hi
    → hi < lo + (last - first) * (d + 1)
    → (lo ≤ hi) × (first ≤ last)
is_rising lo hi first last d low high = elim (le_cases first last) [
  | inl up ↦ (omega (arith, low), up)
  | inr down ↦
      let flat : last - first ≡ 0 = omega arith in
      absurd (collapsed lo hi (last - first) d flat low high)
]

expand_range-elements :
    (addr_cell name_cell : Text) (lo hi : ℕ) (base : Text) (first last : ℕ)
    → addresses addr_cell ≡ some (lo, hi)
    → name_range name_cell ≡ some (base, first, last)
    → first ≤ last
    → expand_range addr_cell name_cell ≡ elements lo hi (last - first + 1) base first
unfolding expand_range
expand_range-elements addr_cell name_cell lo hi base first last ea en order =
    rw (ea, en, expand_range) (rw (ltb-le first last order) refl)

-- A row of a range of names, with the numbers from `first` to `last`, and a range of addresses, where `d` is
-- the widest step of which `last - first` lead from `lo` no further than `hi`: the row gives one register
-- for each number, and the `k`-th, counted from 0, has the base with the number `first + k` and an address
-- that reads back as `lo + k * d`.
pub expand_range_lem :
    (addr_cell name_cell : Text) (lo hi : ℕ) (base : Text) (first last d k : ℕ)
    → addresses addr_cell ≡ some (lo, hi)
    → name_range name_cell ≡ some (base, first, last)
    → lo + (last - first) * d ≤ hi
    → hi < lo + (last - first) * (d + 1)
    → k ≤ last - first
    → let pairs = expand_range addr_cell name_cell in
      (length pairs ≡ last - first + 1)
      × IsElement pairs k (base ++ decimal (first + k)) (lo + k * d)
unfolding elements
expand_range_lem addr_cell name_cell lo hi base first last d k ea en low high within =
    let n = last - first + 1 in
    let rising = is_rising lo hi first last d low high in
    let step = stride_up_unique lo hi (last - first) d low high in
    rw (expand_range-elements addr_cell name_cell lo hi base first last ea en rising.1) (
      length-map (range_from 0 n) _ ∙ length-range_from 0 n,
      subst
          (λ s.
            IsElement (elements lo hi n base first) k (base ++ decimal (first + k)) (lo + k * s))
          step (elements-IsElement lo hi n base first k rising.0 (omega arith)),
    )
