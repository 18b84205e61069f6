-- ===== src/Prose/Sweep/Accounted.antt =====
-- What the status of the sweep says of every heading of the document.
use libhw.Base.{
  &&_true, Bool, Bool-cases, Dict, List, Option, Text, [], all, any, ap₂, arith, false, has_key,
  inl, inr, keep, map, none, not, refl, some, subst, sym, text_eq, text_eq_iff, true, ◌&&◌, ◌||◌,
  ◌↔◌, ◌∷◌, ◌≡◌,
}
use libhw.Base.Regex.{found_in}
use libhw.Base.Regex.Iterate.{finditer}
use libhw.Prose.Candidates.Status.{fail_if-zero}
use libhw.Prose.Sweep.{
  Heading, Headings, Key, add_heading, add_titled, collect, group_re, in_instructions, is_matched,
  is_skipped, key_eq, key_of, mnemonic_of, sweep, sweep_known, sweep_section_re, sweep_status,
}
use libhw.Sources.Lock.{is_empty}

key_eq-≡ : (a b : Key) → key_eq a b ≡ true → a ≡ b
unfolding key_eq
key_eq-≡ (a, b) (c, d) h =
    let (same_section, same_title) = &&_true (text_eq a c) (text_eq b d) h in
    ap₂ (λ x y. (x, y)) ((text_eq_iff a c).0 same_section) ((text_eq_iff b d).0 same_title)

module _ (known : List Text) (reviewed : Dict (Option Text)) where
  unfoldable pub is_named : Text → Bool
  unfolding is_matched has_key
  is_named name = is_matched known name || has_key name reviewed

  unfoldable pub ends_accounted : Option Text → Bool
  unfolding is_named
  ends_accounted none = true
  ends_accounted (some name) = is_named name

  -- A heading of the instruction set, or one that ends in no name, or in a name that the manifest has in
  -- some spelling or that is reviewed.
  unfoldable pub is_accounted : Key → Bool
  unfolding in_instructions mnemonic_of ends_accounted
  is_accounted k = in_instructions k || ends_accounted (mnemonic_of k.1)

  all_named : Headings → Bool
  all_named h = all (λ d. is_named d.name) h.described

  keep-all_named :
      (ds : List Heading)
      → is_empty
          (keep (λ d. not (has_key d.name reviewed)) (keep (λ d. not (is_matched known d.name)) ds))
        ≡ all (λ d. is_named d.name) ds
  unfolding is_empty is_named
  keep-all_named [] = refl
  keep-all_named (d ∷ ds) = elim (Bool-cases (is_matched known d.name)) [
    | inl m ↦ rw (m, keep-all_named ds) refl
    | inr m ↦ elim (Bool-cases (has_key d.name reviewed)) [
      | inl r ↦ rw (m, r, keep-all_named ds) refl
      | inr r ↦ rw (m, r) refl
    ]
  ]

  all_named-add_titled :
      (o : Option Text) (k : Key) (h : Headings)
      → all_named (add_titled o k h) ≡ (ends_accounted o && all_named h)
  unfolding add_titled ends_accounted all_named
  all_named-add_titled (some name) (sec, title) h = refl
  all_named-add_titled none (sec, title) h = elim (Bool-cases (found_in group_re title)) [
    | inl g ↦ rw g refl
    | inr g ↦ rw g refl
  ]

  all_named-add_heading :
      (k : Key) (h : Headings)
      → in_instructions k ≡ false
      → all_named (add_heading k h) ≡ (is_accounted k && all_named h)
  unfolding add_heading is_accounted
  all_named-add_heading k h outside = rw outside (all_named-add_titled (mnemonic_of k.1) k h)

  seen-accounted :
      (k : Key) (seen : List Key)
      → all is_accounted seen ≡ true
      → any (key_eq k) seen ≡ true
      → is_accounted k ≡ true
  seen-accounted k [] h there = absurd (cc there)
  seen-accounted k (j ∷ seen) h there =
      let (head, tail) = &&_true (is_accounted j) (all is_accounted seen) h in
      elim (Bool-cases (key_eq k j)) [
        | inl e ↦ subst (λ i. is_accounted i ≡ true) (sym (key_eq-≡ k j e)) head
        | inr e ↦ seen-accounted k seen tail (rw e at there)
      ]

  skipped-accounted :
      (seen : List Key) (k : Key)
      → all is_accounted seen ≡ true
      → is_skipped seen k ≡ true
      → is_accounted k ≡ true
  unfolding is_skipped is_accounted
  skipped-accounted seen k h skip = elim (Bool-cases (in_instructions k)) [
    | inl e ↦ rw e refl
    | inr e ↦ seen-accounted k seen h (rw e at skip)
  ]

  not_skipped : (seen : List Key) (k : Key) → is_skipped seen k ≡ false → in_instructions k ≡ false
  unfolding is_skipped
  not_skipped seen k h = ground (arith, h)

  all_named-collect :
      (seen ks : List Key)
      → all is_accounted seen ≡ true
      → all_named (collect seen ks) ≡ all is_accounted ks
  unfolding collect all_named
  all_named-collect seen [] h = refl
  all_named-collect seen (k ∷ ks) h = elim (Bool-cases (is_skipped seen k)) [
    | inl skip ↦ rw (skip, skipped-accounted seen k h skip) (all_named-collect seen ks h)
    | inr new ↦ elim (Bool-cases (is_accounted k)) [
      | inl e ↦
          rw (new, all_named-add_heading k (collect (k ∷ seen) ks) (not_skipped seen k new), e)
            (all_named-collect (k ∷ seen) ks (rw e h))
      | inr e ↦
          rw (new, all_named-add_heading k (collect (k ∷ seen) ks) (not_skipped seen k new), e) refl
    ]
  ]

-- The sweep of a document returns 0 exactly when every section heading in its text belongs to the
-- instruction chapters, or ends in no name, or ends in one that the manifest has in some spelling or that
-- is reviewed as no register. A heading that is seen before, and so passed over, is no exception.
pub sweep_status-zero :
    (text : Text) (names : List Text) (reviewed : Dict (Option Text))
    → (sweep_status text names reviewed ≡ 0) ↔ (
        all
          (is_accounted (sweep_known names) reviewed)
          (map key_of (finditer sweep_section_re text))
        ≡ true)
unfolding sweep_status sweep all_named
sweep_status-zero text names reviewed =
    let known = sweep_known names in
    let ks = map key_of (finditer sweep_section_re text) in
    rw⁻¹ (all_named-collect known reviewed [] ks refl) (
      rw (keep-all_named known reviewed (collect [] ks).described)
        (fail_if-zero (all_named known reviewed (collect [] ks))))
