-- ===== src/Manifest/Cmsis/Sides.antt =====
-- Which addresses the comparison of a header with the manifests takes from each.
use libhw.Base.{
  ==_iff, Bool, Bool-cases, List, Option, Text, [], any, ap, arith, codes, false, get_elem?, inl,
  inr, none, not, or_else, refl, some, some-injective, starts_with, subst, suc, sym, text_eq,
  text_eq_iff, true, zero, ℕ, ◌&&◌, ◌==◌, ◌||◌, ◌↔◌, ◌∷◌, ◌≡◌, ◌≢◌, ◌⊎◌,
}
use libhw.Base.Numeral.{int_16}
use libhw.Manifest.Cmsis.{AddressMap, CmsisReg, has_address_key, is_compared}
use libhw.Manifest.Cmsis.Located.{compared_at, is_at}
use libhw.Model.Entry.{ManifestEntry}

-- The text is there, starts with `0x`, and reads back as the address.
abbrev IsAddress : ℕ → Option Text → Type 0
IsAddress a o =
    (x : Text) × (o ≡ some x) × (starts_with x (codes "0x") ≡ true) × (int_16 x ≡ some a)

-- The entry is compared, at the address that its encoding reads back as.
abbrev IsComparedAt : ℕ → ManifestEntry → Type 0
IsComparedAt a e =
    (e.access ≡ some (codes "memory_mapped"))
    × (e.encoding_kind ≡ codes "absolute")
    × (e.classification ≢ codes "explicit_exclusion")
    × IsAddress a e.encoding

-- Some entry of the manifests is compared at the address.
abbrev pub IsOurs : ℕ → List ManifestEntry → Type 0
IsOurs a entries = (k : ℕ) × (e : ManifestEntry) × (get_elem? entries k ≡ some e) × IsComparedAt a e

-- The header has a register at the address.
abbrev pub IsTheirs : ℕ → AddressMap CmsisReg → Type 0
IsTheirs a cmsis = (k : ℕ) × (r : CmsisReg) × (get_elem? cmsis k ≡ some (a, r))

-- Text of an optional field that is not empty.
or_else-some : (o : Option Text) (c : ℕ) (t : Text) → (or_else o [] ≡ c ∷ t) ↔ (o ≡ some (c ∷ t))
unfolding or_else
or_else-some none c t = (λ h. cc, λ h. cc)
or_else-some (some []) c t = (λ h. cc, λ h. absurd (cc (some-injective [] (c ∷ t) h)))
or_else-some (some (b ∷ s)) c t = (λ h. ap some h, λ h. some-injective (b ∷ s) (c ∷ t) h)

is_at_iff : (a : ℕ) (o : Option ℕ) → (is_at a o ≡ true) ↔ (o ≡ some a)
unfolding is_at
is_at_iff a none = (λ h. cc, λ h. cc)
is_at_iff a (some b) = (λ h. ap some ((==_iff b a).0 h), λ h. (==_iff b a).1 (some-injective b a h))

IsAddress-iff :
    (a : ℕ) (o : Option Text)
    → ((starts_with (or_else o []) (codes "0x") ≡ true) × (int_16 (or_else o []) ≡ some a))
      ↔ IsAddress a o
unfolding or_else starts_with
IsAddress-iff a none = (λ h. absurd (cc h.0), λ (x, e, s, v). absurd (cc e))
IsAddress-iff a (some []) = (
  λ h. absurd (cc h.0),
  λ (x, e, s, v).
      let nothing_there =
        subst (λ y. starts_with y (codes "0x") ≡ true) (sym (some-injective [] x e)) s in
      absurd (cc nothing_there),
)
IsAddress-iff a (some (c ∷ t)) = (
  λ h. (c ∷ t, refl, h.0, h.1),
  λ (x, e, s, v).
      let same = sym (some-injective (c ∷ t) x e) in
      (
        subst (λ y. starts_with y (codes "0x") ≡ true) same s,
        subst (λ y. int_16 y ≡ some a) same v,
      ),
)

all_five :
    (a b c d e : Bool)
    → (((a && b && c && not d) && e) ≡ true)
      ↔ ((a ≡ true) × (b ≡ true) × (c ≡ true) × (d ≡ false) × (e ≡ true))
all_five a b c d e = (λ h. ground arith, λ h. ground arith)

not_same : (x y : Text) → (text_eq x y ≡ false) ↔ (x ≢ y)
not_same x y = (
  λ h e. cc (h, (text_eq_iff x y).1 e),
  λ f. elim (Bool-cases (text_eq x y)) [ inl e ↦ absurd (f ((text_eq_iff x y).0 e)) | inr e ↦ e ],
)

compared_at_iff : (a : ℕ) (e : ManifestEntry) → (compared_at a e ≡ true) ↔ IsComparedAt a e
unfolding compared_at is_compared
compared_at_iff a e =
    let mapped : Text = codes "memory_mapped" in
    let (all_to, all_from) =
      all_five (starts_with (or_else e.encoding []) (codes "0x"))
        (text_eq (or_else e.access []) mapped) (text_eq e.encoding_kind (codes "absolute"))
        (text_eq e.classification (codes "explicit_exclusion"))
        (is_at a (int_16 (or_else e.encoding []))) in
    let (access_to, access_from) = or_else-some e.access _ _ in
    let (text_to, text_from) = text_eq_iff (or_else e.access []) mapped in
    let (kind_to, kind_from) = text_eq_iff e.encoding_kind (codes "absolute") in
    let (class_to, class_from) = not_same e.classification (codes "explicit_exclusion") in
    let (at_to, at_from) = is_at_iff a (int_16 (or_else e.encoding [])) in
    let (place_to, place_from) = IsAddress-iff a e.encoding in
    (
      λ h.
          let (s, m, k, x, i) = all_to h in
          (access_to (text_to m), kind_to k, class_to x, place_to (s, at_to i)),
      λ (m, k, x, place).
          let (s, i) = place_from place in
          all_from (s, text_from (access_from m), kind_from k, class_from x, at_from i),
    )

IsOurs-cons :
    (a : ℕ) (e : ManifestEntry) (es : List ManifestEntry)
    → IsOurs a (e ∷ es)
    → IsComparedAt a e ⊎ IsOurs a es
IsOurs-cons a e es (zero, f, at, c) = inl (subst (IsComparedAt a) (sym (some-injective e f at)) c)
IsOurs-cons a e es (suc k, f, at, c) = inr (k, f, at, c)

either : (a b : Bool) → ((a || b) ≡ true) ↔ ((a ≡ true) ⊎ (b ≡ true))
either true b = (λ _. inl refl, λ _. refl)
either false b = (λ h. inr h, λ h. elim h [ inl e ↦ absurd (cc e) | inr e ↦ e ])

pub IsOurs-iff : (a : ℕ) (es : List ManifestEntry) → (any (compared_at a) es ≡ true) ↔ IsOurs a es
IsOurs-iff a [] = (λ h. absurd (cc h), λ (k, e, at, c). absurd (cc at))
IsOurs-iff a (e ∷ es) =
    let (to, from) = IsOurs-iff a es in
    let (here_to, here_from) = compared_at_iff a e in
    let (split, join) = either (compared_at a e) (any (compared_at a) es) in
    (
      λ h. elim (split h) [
        | inl c ↦ (0, e, refl, here_to c)
        | inr c ↦ let (k, f, at, d) = to c in (suc k, f, at, d)
      ],
      λ h. elim (IsOurs-cons a e es h) [
        | inl c ↦ join (inl (here_from c))
        | inr c ↦ join (inr (from c))
      ],
    )

IsTheirs-cons :
    (a b : ℕ) (r : CmsisReg) (m : AddressMap CmsisReg)
    → IsTheirs a ((b, r) ∷ m)
    → (b ≡ a) ⊎ IsTheirs a m
IsTheirs-cons a b r m (zero, q, at) =
    inl (ap (λ (x : ℕ × CmsisReg). x.0) (some-injective (b, r) (a, q) at))
IsTheirs-cons a b r m (suc k, q, at) = inr (k, q, at)

pub IsTheirs-iff : (a : ℕ) (m : AddressMap CmsisReg) → (has_address_key a m ≡ true) ↔ IsTheirs a m
unfolding has_address_key
IsTheirs-iff a [] = (λ h. absurd (cc h), λ (k, r, at). absurd (cc at))
IsTheirs-iff a ((b, r) ∷ m) =
    let (to, from) = IsTheirs-iff a m in
    elim (Bool-cases (b == a)) [
      | inl e ↦ (λ _. (0, r, ap (λ x. some (x, r)) ((==_iff b a).0 e)), λ _. rw e refl)
      | inr e ↦ (
        λ h. let (k, q, at) = to (rw e at h) in (suc k, q, at),
        λ h. elim (IsTheirs-cons a b r m h) [
          | inl same ↦ absurd (cc (e, (==_iff b a).1 same))
          | inr later ↦ rw e (from later)
        ],
      )
    ]
