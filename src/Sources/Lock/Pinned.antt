-- ===== src/Sources/Lock/Pinned.antt =====
-- A source that `get_source` returns is one that the lock pins.
use libhw.Base.{
  >>=-eq-ok, Bool, Bool-cases, Dict, Error, Option, Text, [], ap, arith, fold_result, if◌then◌else◌,
  inl, inr, insert, lookup, lookup-insert, none, ok, ok-injective, refl, require, some,
  source_error, subst, sym, text_eq, text_eq_iff, true, ◌∙◌, ◌∷◌, ◌≡◌, ◌⊎◌,
}
use libhw.Sources.{Source}
use libhw.Sources.Lock.{
  Lock, RawSource, add_source, build_source, get_source, is_supported, load_sources,
}

-- The fields of a source that the lock states for it.
abbrev pub Pins : RawSource → Source → Type 0
Pins raw s =
    (raw.document ≡ some s.document)
    × (raw.revision ≡ some s.revision)
    × (raw.sha256 ≡ some s.sha256)
    × (raw.path ≡ some s.path)
    × (raw.bytes ≡ s.bytes)

-- `key` maps to `raw` in the list.
abbrev pub Entry : Text → RawSource → Dict RawSource → Type 0
Entry key raw [] = ⊥
Entry key raw ((k, r) ∷ d) = ((k ≡ key) × (r ≡ raw)) ⊎ Entry key raw d

build_source-Pins :
    (key : Text) (raw : RawSource) (s : Source)
    → build_source key raw ≡ ok s
    → (s.key ≡ key) × Pins raw s
unfolding build_source
build_source-Pins key raw s h = ground arith

abbrev pub Origin : Dict RawSource → Text → Source → Type 0
Origin xs j s = (raw : RawSource) × Entry j raw xs × (s.key ≡ j) × Pins raw s

-- A source in the dictionary was there before the loop, or was built from an entry of the lock.
load_loop :
    (xs : Dict RawSource) (before after : Dict Source) (j : Text) (s : Source)
    → fold_result add_source xs before ≡ ok after
    → lookup j after ≡ some s
    → (lookup j before ≡ some s) ⊎ Origin xs j s
unfolding fold_result
load_loop [] before after j s h found =
    inl (subst (λ d. lookup j d ≡ some s) (sym (ok-injective before after h)) found)
load_loop ((k, raw) ∷ xs) before after j s h found =
    let (mid, first, rest) = >>=-eq-ok (add_source (k, raw) before) (fold_result add_source xs) h in
    let (b, built, put) =
      >>=-eq-ok (build_source k raw) (λ v. ok (insert k v before)) {b = mid}
        (unfold add_source in first) in
    elim (load_loop xs mid after j s rest found) [
      | inr (r, e, k, p) ↦ inr (r, inr e, k, p)
      | inl at_mid ↦
          from_insert b built (subst (λ d. lookup j d ≡ some s) (sym (ok-injective _ _ put)) at_mid)
    ]
  where
    looked :
        (b : Source) {t : Bool}
        → text_eq k j ≡ t
        → lookup j (insert k b before) ≡ (if t then some b else lookup j before)
    looked b e = rw e at (lookup-insert {V = Source} k j b before)

    pinned : (b : Source) → build_source k raw ≡ ok b → k ≡ j → b ≡ s → Origin ((k, raw) ∷ xs) j s
    pinned b built same eq =
        let (key, pins) = build_source-Pins k raw s (built ∙ ap ok eq) in
        (raw, inl (same, refl), key ∙ same, pins)

    from_insert :
        (b : Source)
        → build_source k raw ≡ ok b
        → lookup j (insert k b before) ≡ some s
        → (lookup j before ≡ some s) ⊎ Origin ((k, raw) ∷ xs) j s
    from_insert b built at = elim (Bool-cases (text_eq k j)) [
      | inr e ↦ inl (sym (looked b e) ∙ at)
      | inl e ↦ inr (pinned b built ((text_eq_iff k j).0 e) (cc (sym (looked b e) ∙ at)))
    ]

load_sources-eq-ok :
    (lock : Lock) (d : Dict Source)
    → load_sources (some lock) ≡ ok d
    → (is_supported lock.schema_version ≡ true) × (fold_result add_source lock.sources [] ≡ ok d)
unfolding load_sources
load_sources-eq-ok lock d h = ground arith

required {ℓ} : {A : Type ℓ} {a : A} (o : Option A) (e : Error) → require o e ≡ ok a → o ≡ some a
required none e h = cc
required (some x) e h = cc

-- A source that `get_source` returns for a key has that key, and its document, revision, digest,
-- path and size are those of an entry of the lock under that key. The lock has a supported version.
pub get_source_pinned :
    (key : Text) (lock : Lock) (s : Source)
    → get_source key (some lock) ≡ ok s
    → (is_supported lock.schema_version ≡ true) × Origin lock.sources key s
unfolding get_source
get_source_pinned key lock s h =
    let (d, loaded, found) = >>=-eq-ok (load_sources (some lock)) _ h in
    let (version, looped) = load_sources-eq-ok lock d loaded in
    elim (load_loop lock.sources [] d key s looped (required (lookup key d) source_error found)) [
      | inl e ↦ absurd (unfold lookup in cc e)
      | inr origin ↦ (version, origin)
    ]
