-- ===== src/Manifest/Cmsis.antt =====
-- `diff_against` of tools/state/cmsis.py: the addresses of a manifest against those of a header.
pub mod Patterns
pub mod Header
pub mod Layout
pub mod Located
pub mod Sides
pub mod Compared
pub mod Partition
use libhw.Base.{
  Bool, List, Text, [], codes, count, false, if◌then◌else◌, keep, length, ltb, none, not, or_else,
  some, starts_with, text_eq, true, ℕ, ◌&&◌, ◌==◌, ◌∷◌,
}
use libhw.Base.Numeral.{int_16}
use libhw.Model.Entry.{ManifestEntry}

pub record CmsisReg : Type 0 where
  pub address : ℕ
  pub struct_name : Text
  pub field : Text
  pub width : ℕ

-- A dict with numbers as keys, in insertion order.
abbrev pub AddressMap {ℓ} : Type ℓ → Type ℓ
AddressMap V = List (ℕ × V)

module _ {ℓ} {V : Type ℓ} where
  unfoldable pub has_address_key : ℕ → AddressMap V → Bool
  has_address_key a [] = false
  has_address_key a ((b, v) ∷ d) = if b == a then true else has_address_key a d

  unfoldable pub put_address : ℕ → V → AddressMap V → AddressMap V
  put_address a v [] = (a, v) ∷ []
  put_address a v ((b, w) ∷ d) = if b == a then (b, v) ∷ d else (b, w) ∷ put_address a v d

  abbrev pub address_keys : AddressMap V → List ℕ
  address_keys [] = []
  address_keys ((a, v) ∷ d) = a ∷ address_keys d

-- The entry is compared: it is at an absolute address of memory, and not excluded.
unfoldable pub is_compared : ManifestEntry → Bool
unfolding starts_with or_else text_eq
is_compared e =
    starts_with (or_else e.encoding []) (codes "0x")
    && text_eq (or_else e.access []) (codes "memory_mapped")
    && text_eq e.encoding_kind (codes "absolute")
    && not (text_eq e.classification (codes "explicit_exclusion"))

-- An encoding that is no number is passed over.
unfoldable pub add_ours : ManifestEntry → AddressMap Text → AddressMap Text
unfolding is_compared int_16 or_else put_address
add_ours e ours =
    if is_compared e
    then elim (int_16 (or_else e.encoding [])) [
      | none ↦ ours
      | some a ↦ put_address a e.canonical_name ours
    ]
    else ours

unfoldable pub our_addresses : List ManifestEntry → AddressMap Text → AddressMap Text
unfolding add_ours
our_addresses [] ours = ours
our_addresses (e ∷ es) ours = our_addresses es (add_ours e ours)

unfoldable pub insert_number : ℕ → List ℕ → List ℕ
insert_number a [] = a ∷ []
insert_number a (b ∷ bs) = if ltb b a then b ∷ insert_number a bs else a ∷ b ∷ bs

unfoldable pub sorted_numbers : List ℕ → List ℕ
unfolding insert_number
sorted_numbers [] = []
sorted_numbers (a ∷ rest) = insert_number a (sorted_numbers rest)

-- What is reported, the addresses as numbers.
pub record AddressDiff : Type 0 where
  pub cmsis_registers : ℕ
  pub manifest_registers : ℕ
  pub in_both : ℕ
  pub only_in_cmsis : List ℕ
  pub only_in_manifest : List ℕ

unfoldable pub diff_against : List ManifestEntry → AddressMap CmsisReg → AddressDiff
unfolding our_addresses sorted_numbers has_address_key
diff_against entries cmsis =
    let ours = our_addresses entries [] in
    record {
      cmsis_registers = length cmsis;
      manifest_registers = length ours;
      in_both = count (λ a. has_address_key a ours) (address_keys cmsis);
      only_in_cmsis =
          sorted_numbers (keep (λ a. not (has_address_key a ours)) (address_keys cmsis));
      only_in_manifest =
          sorted_numbers (keep (λ a. not (has_address_key a cmsis)) (address_keys ours));
    }
