-- ===== src/Manifest/Cmsis/Located.antt =====
-- The addresses in a map and in a sorted list, and those that the manifests add to a map.
use libhw.Base.{
  ==_iff, Bool, Bool-cases, List, Option, Option-cases, Text, [], any, ap, arith, false, get_elem?,
  if◌then◌else◌, inl, inr, keep, none, or_else, refl, some, some-injective, suc, true, zero, ℕ,
  ◌&&◌, ◌==◌, ◌||◌, ◌↔◌, ◌∙◌, ◌∷◌, ◌≡◌,
}
use libhw.Base.Numeral.{int_16}
use libhw.Manifest.Cmsis.{
  AddressMap, add_ours, address_keys, has_address_key, insert_number, is_compared, our_addresses,
  sorted_numbers,
}
use libhw.Manifest.Cmsis.Partition.{has_address_key-put}
use libhw.Model.Entry.{ManifestEntry}
use libhw.Pdf.Range.{addresses}

-- The address is in the list.
abbrev pub IsListed : ℕ → List ℕ → Type 0
IsListed a addresses = (k : ℕ) × (get_elem? addresses k ≡ some a)

unfoldable pub has : ℕ → List ℕ → Bool
has a xs = any (λ b. b == a) xs

pub has_iff : (a : ℕ) (xs : List ℕ) → (has a xs ≡ true) ↔ IsListed a xs
unfolding has
has_iff a [] = (λ h. absurd (cc h), λ (k, h). absurd (cc h))
has_iff a (b ∷ xs) =
    let (to, from) = has_iff a xs in
    elim (Bool-cases (b == a)) [
      | inl e ↦ (λ _. (0, ap some ((==_iff b a).0 e)), λ _. rw e refl)
      | inr e ↦ (
        λ h. let (k, at) = to (rw e at h) in (suc k, at),
        λ (k, at). rw e (from (earlier b xs a e k at)),
      )
    ]
  where
    earlier :
        (b : ℕ) (xs : List ℕ) (a : ℕ)
        → (b == a) ≡ false
        → (k : ℕ) → get_elem? (b ∷ xs) k ≡ some a
        → IsListed a xs
    earlier b xs a e zero at = absurd (cc (e, (==_iff b a).1 (some-injective b a at)))
    earlier b xs a e (suc k) at = (k, at)

has-insert_number : (a b : ℕ) (bs : List ℕ) → has a (insert_number b bs) ≡ ((b == a) || has a bs)
unfolding insert_number has
has-insert_number a b [] = refl
has-insert_number a b (c ∷ bs) = ground (arith, has-insert_number a b bs)

pub has-sorted_numbers : (a : ℕ) (bs : List ℕ) → has a (sorted_numbers bs) ≡ has a bs
unfolding sorted_numbers has
has-sorted_numbers a [] = refl
has-sorted_numbers a (b ∷ bs) =
    ground (arith, has-insert_number a b (sorted_numbers bs), has-sorted_numbers a bs)

pub has-keep : (a : ℕ) (p : ℕ → Bool) (xs : List ℕ) → has a (keep p xs) ≡ (has a xs && p a)
unfolding has
has-keep a p [] = refl
has-keep a p (x ∷ xs) = let same : x ≡ a → p x ≡ p a = ap p in ground (arith, has-keep a p xs, same)

pub has-address_keys {ℓ} :
    {V : Type ℓ} (a : ℕ) (m : AddressMap V) → has a (address_keys m) ≡ has_address_key a m
unfolding has has_address_key
has-address_keys a [] = refl
has-address_keys a ((b, v) ∷ m) = ground (arith, has-address_keys a m)

unfoldable pub is_at : ℕ → Option ℕ → Bool
is_at a none = false
is_at a (some b) = b == a

unfoldable pub compared_at : ℕ → ManifestEntry → Bool
compared_at a e = is_compared e && is_at a (int_16 (or_else e.encoding []))

has_address_key-add_ours :
    (a : ℕ) (e : ManifestEntry) (ours : AddressMap Text)
    → has_address_key a (add_ours e ours) ≡ (compared_at a e || has_address_key a ours)
unfolding add_ours compared_at is_at
has_address_key-add_ours a e ours = elim (Bool-cases (is_compared e)) [
  | inr skip ↦ rw skip refl
  | inl compared ↦ elim (Option-cases (int_16 (or_else e.encoding []))) [
    | inl n ↦ rw (compared, n, add_ours, is_at) refl
    | inr (b, n) ↦
        rw (compared, n, add_ours, is_at)
          (has_address_key-put b a e.canonical_name ours ∙ or_if (b == a) (has_address_key a ours))
  ]
]
  where
    or_if : (here there : Bool) → (if here then true else there) ≡ (here || there)
    or_if true there = refl
    or_if false there = refl

pub has_address_key-our_addresses :
    (a : ℕ) (es : List ManifestEntry) (ours : AddressMap Text)
    → has_address_key a (our_addresses es ours) ≡ (any (compared_at a) es || has_address_key a ours)
unfolding our_addresses
has_address_key-our_addresses a [] ours = refl
has_address_key-our_addresses a (e ∷ es) ours =
    has_address_key-our_addresses a es (add_ours e ours)
    ∙ (ap (λ b. any (compared_at a) es || b) (has_address_key-add_ours a e ours)
        ∙ swap (any (compared_at a) es) (compared_at a e) (has_address_key a ours))
  where
    swap : (a b c : Bool) → (a || (b || c)) ≡ ((b || a) || c)
    swap a b c = ground arith
