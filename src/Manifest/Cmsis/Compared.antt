-- ===== src/Manifest/Cmsis/Compared.antt =====
-- The comparison of a header with the manifests: which addresses it lists.
use libhw.Base.{
  >>=-eq-ok, Bool, List, Option, Text, [], any, arith, false, keep, length, not, ok, ok-injective,
  refl, some, some-injective, subst, sym, true, ℕ, ◌&&◌, ◌+◌, ◌||◌, ◌↔◌, ◌∙◌, ◌≡◌,
}
use libhw.Manifest.Cmsis.{
  AddressDiff, AddressMap, CmsisReg, address_keys, diff_against, has_address_key, our_addresses,
  sorted_numbers,
}
use libhw.Manifest.Cmsis.Header.{compare_header, parse_header}
use libhw.Manifest.Cmsis.Layout.{parse_header-NoRepeat}
use libhw.Manifest.Cmsis.Located.{
  IsListed, compared_at, has, has-address_keys, has-keep, has-sorted_numbers,
  has_address_key-our_addresses, has_iff,
}
use libhw.Manifest.Cmsis.Partition.{NoRepeat, diff_against_lem}
use libhw.Manifest.Cmsis.Sides.{IsOurs, IsOurs-iff, IsTheirs, IsTheirs-iff}
use libhw.Model.Entry.{ManifestEntry}

-- An address of the one side that the other lacks.
only_one :
    {A B : Type 0} (p q : Bool)
    → ((p ≡ true) ↔ A)
    → ((q ≡ true) ↔ B)
    → ((p && not q) ≡ true) ↔ (A × (¬ B))
only_one true true f g = (λ h. absurd (cc h), λ h. absurd (h.1 (g.0 refl)))
only_one true false f g = (λ _. (f.0 refl, λ b. cc (g.1 b)), λ _. refl)
only_one false q f g = (λ h. absurd (cc h), λ h. f.1 h.0)

IsListed-only :
    {A B : Type 0} (a : ℕ) (q : ℕ → Bool) (xs : List ℕ)
    → ((has a xs ≡ true) ↔ A)
    → ((q a ≡ true) ↔ B)
    → IsListed a (sorted_numbers (keep (λ b. not (q b)) xs)) ↔ (A × (¬ B))
IsListed-only a q xs f g =
    let (list_to, list_from) = has_iff a (sorted_numbers (keep (λ b. not (q b)) xs)) in
    let same = has-sorted_numbers a (keep (λ b. not (q b)) xs) ∙ has-keep a (λ b. not (q b)) xs in
    let (to, from) = only_one (has a xs) (q a) f g in
    (λ h. to (sym same ∙ list_from h), λ h. list_to (same ∙ from h))

ours-keys :
    (a : ℕ) (es : List ManifestEntry)
    → has_address_key a (our_addresses es []) ≡ any (compared_at a) es
unfolding has_address_key
ours-keys a es = has_address_key-our_addresses a es [] ∙ or_none (any (compared_at a) es)
  where
    or_none : (b : Bool) → (b || false) ≡ b
    or_none b = ground arith

-- What is listed of a header with the registers `cmsis` and the manifests.
abbrev pub IsSplit : List ManifestEntry → AddressMap CmsisReg → ℕ → AddressDiff → Type 0
IsSplit entries cmsis a d =
    (IsListed a d.only_in_cmsis ↔ (IsTheirs a cmsis × (¬ IsOurs a entries)))
    × (IsListed a d.only_in_manifest ↔ (IsOurs a entries × (¬ IsTheirs a cmsis)))
    × (d.cmsis_registers ≡ length cmsis)
    × (d.in_both + length d.only_in_cmsis ≡ d.cmsis_registers)
    × (d.in_both + length d.only_in_manifest ≡ d.manifest_registers)

diff_against-IsSplit :
    (entries : List ManifestEntry) (cmsis : AddressMap CmsisReg) (a : ℕ)
    → NoRepeat cmsis
    → IsSplit entries cmsis a (diff_against entries cmsis)
unfolding diff_against
diff_against-IsSplit entries cmsis a new =
    let ours = our_addresses entries [] in
    let (sum_to, sum_from) = diff_against_lem entries cmsis new in
    let theirs : (has a (address_keys cmsis) ≡ true) ↔ IsTheirs a cmsis =
      rw (has-address_keys a cmsis) (IsTheirs-iff a cmsis) in
    let mine : (has_address_key a ours ≡ true) ↔ IsOurs a entries =
      rw (ours-keys a entries) (IsOurs-iff a entries) in
    let my_keys : (has a (address_keys ours) ≡ true) ↔ IsOurs a entries =
      rw (has-address_keys a ours) mine in
    (
      IsListed-only a (λ b. has_address_key b ours) (address_keys cmsis) theirs mine,
      IsListed-only a (λ b. has_address_key b cmsis) (address_keys ours) my_keys
          (IsTheirs-iff a cmsis),
      refl,
      sum_to,
      sum_from,
    )

-- A comparison of a header with the manifests that returns lists an address as only in the header exactly
-- when the header has a register there and no entry is compared there, and as only in the manifests
-- exactly when an entry is compared there and the header has no register there. An entry is compared if it
-- is memory mapped, at an absolute address, not excluded, and its encoding starts with `0x` and reads back
-- as the address. The addresses in both and those that only the header has are as many as the header has,
-- and so for the manifests.
pub compare_header_lem :
    (evaluate : Text → Option ℕ) (text : Text) (entries : List ManifestEntry) (d : AddressDiff)
    (a : ℕ)
    → compare_header evaluate (some text) entries ≡ ok (some d)
    → (cmsis : AddressMap CmsisReg) × (parse_header evaluate text ≡ ok cmsis)
      × IsSplit entries cmsis a d
unfolding compare_header
compare_header_lem evaluate text entries d a h =
    let (cmsis, parsed, same) = >>=-eq-ok (parse_header evaluate text) _ h in
    let found : diff_against entries cmsis ≡ d =
      some-injective _ d (ok-injective (some (diff_against entries cmsis)) (some d) same) in
    (
      cmsis,
      parsed,
      subst (IsSplit entries cmsis a) found
          (diff_against-IsSplit entries cmsis a (parse_header-NoRepeat evaluate text cmsis parsed)),
    )
