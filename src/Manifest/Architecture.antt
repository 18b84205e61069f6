-- ===== src/Manifest/Architecture.antt =====
-- `arch_names` and `arch_addrs` of tools/state_import.py: what a CPU overlay takes from the manifest of
-- the architecture that it builds on.
use libhw.Base.{
  Bool, Bool-cases, Dict, List, Option, Option-cases, Text, [], ap, codes, false, has_key,
  has_key-lookup, if◌then◌else◌, inl, inr, insert, lookup, lookup-has_key, lookup-insert, map, none,
  or_else, refl, set_default, some, starts_with, strip, subst, text_eq, text_eq_iff, text_eq_refl,
  true, upper, ◌&&◌, ◌∙◌, ◌∷◌, ◌≡◌,
}
use libhw.Manifest.Coverage.{Manifest}
use libhw.Model.Entry.{ManifestEntry}

-- `{e["canonical_name"] for e in doc["entries"]}`, empty if there is no manifest
unfoldable pub arch_names : Option Manifest → List Text
arch_names none = []
arch_names (some doc) = map (λ (e : ManifestEntry). e.canonical_name) doc.entries

-- `(e.get("encoding") or "").strip().upper()`
unfoldable pub address_of : ManifestEntry → Text
unfolding upper strip or_else
address_of e = upper (strip (or_else e.encoding []))

unfoldable pub has_address : ManifestEntry → Bool
unfolding starts_with address_of text_eq
has_address e =
    starts_with (address_of e) (codes "0X") && text_eq e.encoding_kind (codes "absolute")

unfoldable pub add_address : ManifestEntry → Dict Text → Dict Text
unfolding has_address set_default address_of
add_address e out = if has_address e then set_default (address_of e) e.canonical_name out else out

unfoldable pub add_addresses : List ManifestEntry → Dict Text → Dict Text
unfolding add_address
add_addresses [] out = out
add_addresses (e ∷ es) out = add_addresses es (add_address e out)

unfoldable pub arch_addrs : Option Manifest → Dict Text
unfolding add_addresses
arch_addrs none = []
arch_addrs (some doc) = add_addresses doc.entries []

-- The name of the first entry that has the address.
unfoldable pub first_at : Text → List ManifestEntry → Option Text
unfolding has_address text_eq address_of
first_at a [] = none
first_at a (e ∷ es) =
    let rest = first_at a es in
    if has_address e && text_eq (address_of e) a then some e.canonical_name else rest

abbrev first_or : Option Text → Option Text → Option Text
first_or (some x) other = some x
first_or none other = other

first_or_assoc : (x y z : Option Text) → first_or (first_or x y) z ≡ first_or x (first_or y z)
first_or_assoc (some x) y z = refl
first_or_assoc none y z = refl

first_or-none : (o : Option Text) → o ≡ first_or o none
first_or-none none = refl
first_or-none (some x) = refl

first_at-cons :
    (a : Text) (e : ManifestEntry) (es : List ManifestEntry)
    → first_or
        (if has_address e && text_eq (address_of e) a then some e.canonical_name else none)
        (first_at a es)
      ≡ first_at a (e ∷ es)
unfolding first_at
first_at-cons a e es = elim (Bool-cases (has_address e && text_eq (address_of e) a)) [
  | inl h ↦ rw h refl
  | inr h ↦ rw h refl
]

new_key :
    (k v : Text) (d : Dict Text)
    → has_key k d ≡ false
    → lookup k (insert k v d) ≡ first_or (lookup k d) (some v)
new_key k v d h = lookup-insert k k v d ∙ (rw (text_eq_refl k, lookup-has_key k d h) refl)

old_key :
    (k : Text) (d : Dict Text) (other : Option Text)
    → has_key k d ≡ true
    → lookup k d ≡ first_or (lookup k d) other
old_key k d other h = elim (Option-cases (lookup k d)) [
  | inl e ↦ absurd (cc (has_key-lookup k d e, h))
  | inr (x, e) ↦ rw e refl
]

at_key :
    (k v : Text) (d : Dict Text) → lookup k (set_default k v d) ≡ first_or (lookup k d) (some v)
unfolding set_default
at_key k v d = elim (Bool-cases (has_key k d)) [
  | inl h ↦ rw h (old_key k d (some v) h)
  | inr h ↦ rw h (new_key k v d h)
]

elsewhere :
    (k a v : Text) (d : Dict Text) → text_eq k a ≡ false → lookup a (set_default k v d) ≡ lookup a d
unfolding set_default
elsewhere k a v d other = elim (Bool-cases (has_key k d)) [
  | inl h ↦ rw h refl
  | inr h ↦ rw h (lookup-insert k a v d ∙ (rw other refl))
]

lookup-set_default :
    (k a v : Text) (d : Dict Text)
    → lookup a (set_default k v d) ≡ first_or (lookup a d) (if text_eq k a then some v else none)
lookup-set_default k a v d = elim (Bool-cases (text_eq k a)) [
  | inl same ↦ rw same (
      subst (λ x. lookup x (set_default k v d) ≡ first_or (lookup x d) (some v))
        ((text_eq_iff k a).0 same) (at_key k v d))
  | inr other ↦ rw other (elsewhere k a v d other ∙ first_or-none (lookup a d))
]

lookup-add_address :
    (a : Text) (e : ManifestEntry) (out : Dict Text)
    → lookup a (add_address e out)
      ≡ first_or
          (lookup a out)
          (if has_address e && text_eq (address_of e) a then some e.canonical_name else none)
unfolding add_address
lookup-add_address a e out = elim (Bool-cases (has_address e)) [
  | inl h ↦ rw h (lookup-set_default (address_of e) a e.canonical_name out)
  | inr h ↦ rw h (first_or-none (lookup a out))
]

lookup-add_addresses :
    (a : Text) (es : List ManifestEntry) (out : Dict Text)
    → lookup a (add_addresses es out) ≡ first_or (lookup a out) (first_at a es)
unfolding add_addresses first_at
lookup-add_addresses a [] out = first_or-none (lookup a out)
lookup-add_addresses a (e ∷ es) out =
    lookup-add_addresses a es (add_address e out)
    ∙ ap (λ o. first_or o (first_at a es)) (lookup-add_address a e out)
    ∙ first_or_assoc (lookup a out) _ (first_at a es)
    ∙ ap (first_or (lookup a out)) (first_at-cons a e es)

-- The architecture's name of an address is that of the first entry of its manifest that has the
-- address.
pub lookup-arch_addrs :
    (doc : Manifest) (a : Text) → lookup a (arch_addrs (some doc)) ≡ first_at a doc.entries
unfolding arch_addrs
lookup-arch_addrs doc a = lookup-add_addresses a doc.entries [] ∙ (unfold lookup in refl)
