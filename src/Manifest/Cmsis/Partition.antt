-- ===== src/Manifest/Cmsis/Partition.antt =====
-- The comparison accounts for every address.
use libhw.Base.{
  Bool, Bool-cases, List, Option-cases, Text, [], ap, arith, count, false, if◌then◌else◌, inl, inr,
  keep, length, length-keep, not, or_else, refl, subst, suc, sym, true, ℕ, ◌+◌, ◌==◌, ◌∙◌, ◌∷◌, ◌≡◌,
}
use libhw.Base.Numeral.{int_16}
use libhw.Manifest.Cmsis.{
  AddressMap, CmsisReg, add_ours, address_keys, diff_against, has_address_key, insert_number,
  is_compared, our_addresses, put_address, sorted_numbers,
}
use libhw.Model.Entry.{ManifestEntry}

length-insert_number : (a : ℕ) (bs : List ℕ) → length (insert_number a bs) ≡ length bs + 1
unfolding insert_number
length-insert_number a [] = omega arith
length-insert_number a (b ∷ bs) = ground (arith, length-insert_number a bs)

length-sorted_numbers : (bs : List ℕ) → length (sorted_numbers bs) ≡ length bs
unfolding sorted_numbers
length-sorted_numbers [] = refl
length-sorted_numbers (b ∷ bs) =
    omega (arith, length-insert_number b (sorted_numbers bs), length-sorted_numbers bs)

length-address_keys {ℓ} : {V : Type ℓ} (d : AddressMap V) → length (address_keys d) ≡ length d
length-address_keys [] = refl
length-address_keys ((a, v) ∷ d) = ap suc (length-address_keys d)

count-not {ℓ} :
    {A : Type ℓ} (p : A → Bool) (xs : List A) → count p xs + count (λ x. not (p x)) xs ≡ length xs
count-not p [] = omega arith
count-not p (x ∷ xs) = ground (arith, count-not p xs)

-- No key is there twice.
abbrev pub NoRepeat {ℓ} : {V : Type ℓ} → AddressMap V → Type 0
NoRepeat [] = Unit
NoRepeat ((a, v) ∷ d) = (has_address_key a d ≡ false) × NoRepeat d

pub has_address_key-put {ℓ} :
    {V : Type ℓ} (a b : ℕ) (v : V) (d : AddressMap V)
    → has_address_key b (put_address a v d) ≡ (if a == b then true else has_address_key b d)
unfolding has_address_key put_address
has_address_key-put a b v [] = refl
has_address_key-put a b v ((c, w) ∷ d) = ground (arith, has_address_key-put a b v d)

pub put_address-NoRepeat {ℓ} :
    {V : Type ℓ} (a : ℕ) (v : V) (d : AddressMap V) → NoRepeat d → NoRepeat (put_address a v d)
unfolding has_address_key put_address
put_address-NoRepeat a v [] h = (refl, tt)
put_address-NoRepeat a v ((b, w) ∷ d) h = elim (Bool-cases (b == a)) [
  | inl e ↦ rw e (h.0, h.1)
  | inr e ↦ rw e (
    has_address_key-put a b v d ∙ other a b (has_address_key b d) e h.0,
    put_address-NoRepeat a v d h.1,
  )
]
  where
    other :
        (a b : ℕ) (there : Bool)
        → (b == a) ≡ false
        → there ≡ false
        → (if a == b then true else there) ≡ false
    other a b there e f = ground arith

add_ours-NoRepeat :
    (e : ManifestEntry) (ours : AddressMap Text) → NoRepeat ours → NoRepeat (add_ours e ours)
unfolding add_ours
add_ours-NoRepeat e ours h = elim (Bool-cases (is_compared e)) [
  | inr skip ↦ rw skip h
  | inl compared ↦ elim (Option-cases (int_16 (or_else e.encoding []))) [
    | inl n ↦ rw (compared, n, add_ours) h
    | inr (a, n) ↦ rw (compared, n, add_ours) (put_address-NoRepeat a e.canonical_name ours h)
  ]
]

our_addresses-NoRepeat :
    (es : List ManifestEntry) (ours : AddressMap Text)
    → NoRepeat ours
    → NoRepeat (our_addresses es ours)
unfolding our_addresses
our_addresses-NoRepeat [] ours h = h
our_addresses-NoRepeat (e ∷ es) ours h =
    our_addresses-NoRepeat es (add_ours e ours) (add_ours-NoRepeat e ours h)

-- One key more in a map is found once more in another, if that has it.
count-cons {ℓ κ} :
    {V : Type ℓ} {W : Type κ} (b : ℕ) (v : V) (d : AddressMap V) (ks : AddressMap W)
    → has_address_key b d ≡ false
    → NoRepeat ks
    → count (λ a. has_address_key a ((b, v) ∷ d)) (address_keys ks)
      ≡ count (λ a. has_address_key a d) (address_keys ks) + (if has_address_key b ks then 1 else 0)
unfolding has_address_key
count-cons b v d [] new h = refl
count-cons b v d ((c, w) ∷ ks) new h =
    let same : (b ≡ c) → has_address_key c d ≡ false =
      λ e. subst (λ x. has_address_key x d ≡ false) e new in
    let fresh : (b ≡ c) → has_address_key b ks ≡ false =
      λ e. subst (λ x. has_address_key x ks ≡ false) (sym e) h.0 in
    ground (arith, count-cons b v d ks new h.1, same, fresh)

count-never {ℓ} : {W : Type ℓ} (e : AddressMap W) → count (λ a. false) (address_keys e) ≡ 0
count-never [] = refl
count-never ((a, v) ∷ e) = omega (arith, count-never e)

count_comm {ℓ κ} :
    {V : Type ℓ} {W : Type κ} (d : AddressMap V) (e : AddressMap W)
    → NoRepeat d
    → NoRepeat e
    → count (λ a. has_address_key a e) (address_keys d)
      ≡ count (λ a. has_address_key a d) (address_keys e)
unfolding has_address_key
count_comm [] e hd he = sym (count-never e)
count_comm ((b, v) ∷ d) e hd he = omega (arith, count_comm d e hd.1 he, count-cons b v d e hd.0 he)

-- A header whose addresses are all different and a manifest are compared without loss: the addresses in
-- both and those that only the header has are as many as the header has, and the addresses in both and
-- those that only the manifest has are as many as the manifest has.
pub diff_against_lem :
    (entries : List ManifestEntry) (cmsis : AddressMap CmsisReg)
    → NoRepeat cmsis
    → let d = diff_against entries cmsis in
      (d.in_both + length d.only_in_cmsis ≡ d.cmsis_registers)
      × (d.in_both + length d.only_in_manifest ≡ d.manifest_registers)
unfolding diff_against
diff_against_lem entries cmsis new =
    let ours = our_addresses entries [] in
    let p : ℕ → Bool = λ a. has_address_key a ours in
    let q : ℕ → Bool = λ a. has_address_key a cmsis in
    (
      omega (
        arith,
        length-sorted_numbers (keep (λ a. not (p a)) (address_keys cmsis)),
        length-keep (λ a. not (p a)) (address_keys cmsis),
        count-not p (address_keys cmsis),
        length-address_keys cmsis,
      ),
      omega (
        arith,
        length-sorted_numbers (keep (λ a. not (q a)) (address_keys ours)),
        length-keep (λ a. not (q a)) (address_keys ours),
        count-not q (address_keys ours),
        length-address_keys ours,
        count_comm cmsis ours new (our_addresses-NoRepeat entries [] tt),
      ),
    )
