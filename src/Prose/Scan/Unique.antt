-- ===== src/Prose/Scan/Unique.antt =====
-- The scan files each candidate once, under its own id.
use libhw.Base.{
  All, All-append, Bool, Bool-cases, Dict, List, Option-cases, Text, [], arith, count, count-append,
  false, has_key, has_key-insert, if◌then◌else◌, inl, inr, insert, insert-append, length, ltb, refl,
  strip, subst, text_eq, text_eq_iff, ℕ, ◌+◌, ◌<◌, ◌∷◌, ◌≡◌, ◌≤◌, ◌⊎◌,
}
use libhw.Base.Regex.{Regex}
use libhw.Base.Regex.Iterate.{Occurrence, finditer}
use libhw.Pdf.Extract.{splitlines}
use libhw.Prose.Names.{names_of}
use libhw.Prose.Patterns.{Kind, patterns}
use libhw.Prose.Scan.{
  ProseCandidate, Scanned, add_candidate, candidate_of, insert_candidate, scan, scan_kinds,
  scan_lines, scan_match, scan_matches, scan_pages, section_after, sorted_values, sorts_first,
  window_of,
}
use libhw.Prose.Scan.Bounds.{IsCandidate, IsFiled, candidate_of-IsCandidate}
use libhw.Sources.Lock.{is_empty}

-- No two entries of the dictionary have one key.
abbrev HasUniqueKeys : Dict ProseCandidate → Type 0
HasUniqueKeys d = (k : Text) → count (λ p. text_eq p.0 k) d ≤ (if has_key k d then 1 else 0)

abbrev IsScan : (Text → Text) → Dict ProseCandidate → Type 0
IsScan sha1 d = All (IsFiled sha1) d × HasUniqueKeys d

HasUniqueKeys-insert :
    (k : Text) (c : ProseCandidate) (d : Dict ProseCandidate)
    → has_key k d ≡ false
    → HasUniqueKeys d
    → HasUniqueKeys (insert k c d)
HasUniqueKeys-insert k c d new h j =
    let grown = insert-append k c d new in
    let split = count-append (λ (p : Text × ProseCandidate). text_eq p.0 j) d ((k, c) ∷ []) in
    elim (Bool-cases (text_eq k j)) [
      | inl same ↦
          let absent : has_key j d ≡ false =
            subst (λ i. has_key i d ≡ false) ((text_eq_iff k j).0 same) new in
          rw (has_key-insert k j c d, same, grown, split, same) (omega (arith, rw absent at (h j)))
      | inr other ↦ rw (has_key-insert k j c d, other, grown, split, other) (omega (arith, h j))
    ]

limit-cases : (n : ℕ) → (90 < n) ⊎ (n ≤ 90)
limit-cases n = ground arith

module _ (sha1 : Text → Text) where
  add_candidate-IsScan :
      (c : ProseCandidate) (d : Dict ProseCandidate)
      → (90 < length c.raw) ⊎ IsCandidate sha1 c
      → IsScan sha1 d
      → IsScan sha1 (add_candidate c d)
  unfolding add_candidate
  add_candidate-IsScan c d good (h, u) = elim (Bool-cases (ltb 90 (length c.raw))) [
    | inl long ↦ rw long (h, u)
    | inr short ↦ elim (Bool-cases (has_key c.cid d)) [
      | inl there ↦ rw (short, there) (h, u)
      | inr new ↦
          let filed : IsCandidate sha1 c = elim good [
            | inl long ↦ absurd (ground (arith, short, long))
            | inr g ↦ g
          ] in
          rw (short, new)
            (
              rw (insert-append c.cid c d new)
                  (All-append (IsFiled sha1) d ((c.cid, c) ∷ []) h ((refl, filed), tt)),
              HasUniqueKeys-insert c.cid c d new u,
            )
    ]
  ]

  scan_match-IsScan :
      (section : Text) (page : ℕ) (window : Text) (kind : Kind) (f : Occurrence)
      (d : Dict ProseCandidate)
      → IsScan sha1 d
      → IsScan sha1 (scan_match sha1 section page window kind f d)
  unfolding scan_match
  scan_match-IsScan section page window kind f d h = elim (Option-cases (names_of kind f)) [
    | inl e ↦ rw (e, scan_match) h
    | inr (names, e) ↦
        let c = candidate_of sha1 section page window kind f names in
        rw (e, scan_match)
          (add_candidate-IsScan c d
            (elim (limit-cases (length (strip f.whole))) [
              | inl long ↦ inl (unfold candidate_of in long)
              | inr short ↦
                  inr (candidate_of-IsCandidate sha1 section page window kind f names e short)
            ])
            h)
  ]

  scan_matches-IsScan :
      (section : Text) (page : ℕ) (window : Text) (kind : Kind) (fs : List Occurrence)
      (d : Dict ProseCandidate)
      → IsScan sha1 d
      → IsScan sha1 (scan_matches sha1 section page window kind fs d)
  unfolding scan_matches
  scan_matches-IsScan section page window kind [] d h = h
  scan_matches-IsScan section page window kind (f ∷ fs) d h =
      scan_matches-IsScan section page window kind fs _
        (scan_match-IsScan section page window kind f d h)

  scan_kinds-IsScan :
      (section : Text) (page : ℕ) (window : Text) (ks : List (Kind × Regex))
      (d : Dict ProseCandidate)
      → IsScan sha1 d
      → IsScan sha1 (scan_kinds sha1 section page window ks d)
  unfolding scan_kinds
  scan_kinds-IsScan section page window [] d h = h
  scan_kinds-IsScan section page window ((kind, rx) ∷ ks) d h =
      scan_kinds-IsScan section page window ks _
        (scan_matches-IsScan section page window kind (finditer rx window) d h)

  scan_lines-IsScan :
      (page : ℕ) (lines : List Text) (s : Scanned)
      → IsScan sha1 s.out
      → IsScan sha1 (scan_lines sha1 page lines s).out
  unfolding scan_lines
  scan_lines-IsScan page [] s h = h
  scan_lines-IsScan page (line ∷ lines) s h =
      let window = window_of (line ∷ lines) in
      scan_lines-IsScan page lines _ (elim (Bool-cases (is_empty (strip window))) [
        | inl e ↦ rw e h
        | inr e ↦
            rw e (scan_kinds-IsScan (section_after line s.section) page window patterns s.out h)
      ])

  scan_pages-IsScan :
      (page : ℕ) (pages : List Text) (s : Scanned)
      → IsScan sha1 s.out
      → IsScan sha1 (scan_pages sha1 page pages s).out
  unfolding scan_pages
  scan_pages-IsScan page [] s h = h
  scan_pages-IsScan page (text ∷ pages) s h =
      scan_pages-IsScan (page + 1) pages _ (scan_lines-IsScan page (splitlines text) s h)

  All-insert_candidate :
      (c : ProseCandidate) (cs : List ProseCandidate)
      → IsCandidate sha1 c
      → All (IsCandidate sha1) cs
      → All (IsCandidate sha1) (insert_candidate c cs)
  unfolding insert_candidate
  All-insert_candidate c [] g h = (g, tt)
  All-insert_candidate c (d ∷ ds) g (hd, h) = elim (Bool-cases (sorts_first d c)) [
    | inl e ↦ rw e (hd, All-insert_candidate c ds g h)
    | inr e ↦ rw e (g, (hd, h))
  ]

  All-sorted_values :
      (d : Dict ProseCandidate) → All (IsFiled sha1) d → All (IsCandidate sha1) (sorted_values d)
  unfolding sorted_values
  All-sorted_values [] h = tt
  All-sorted_values ((k, c) ∷ d) (hc, h) =
      All-insert_candidate c (sorted_values d) hc.1 (All-sorted_values d h)

  count-insert_candidate :
      (p : ProseCandidate → Bool) (c : ProseCandidate) (cs : List ProseCandidate)
      → count p (insert_candidate c cs) ≡ count p (c ∷ cs)
  unfolding insert_candidate
  count-insert_candidate p c [] = refl
  count-insert_candidate p c (d ∷ ds) = ground (arith, count-insert_candidate p c ds)

  count-sorted_values :
      (k : Text) (d : Dict ProseCandidate)
      → All (IsFiled sha1) d
      → count (λ c. text_eq c.cid k) (sorted_values d) ≡ count (λ p. text_eq p.0 k) d
  unfolding sorted_values
  count-sorted_values k [] h = refl
  count-sorted_values k ((j, c) ∷ d) ((e, hc), h) =
      rw (count-insert_candidate (λ x. text_eq x.cid k) c (sorted_values d), e)
        (omega (arith, count-sorted_values k d h))

  -- What a scan returns, by the dictionary that it has filled.
  scan-IsScan :
      (pages : List Text)
      → (d : Dict ProseCandidate) × IsScan sha1 d × (scan sha1 pages ≡ sorted_values d)
  unfolding scan
  scan-IsScan pages = (
    _,
    scan_pages-IsScan 1 pages (record { out = []; section = [] }) (tt, λ k. omega arith),
    refl,
  )

-- Every candidate of a scan has the digest of its kind, text and section as its id, a text of at most 90
-- characters and a context of at most 150. A range names 1 to 513 registers, a family or the operand of
-- an instruction is one name that is no stopword, a list names at least one register and register names
-- only, a count or a phrase names nothing.
pub scan-IsCandidate :
    (sha1 : Text → Text) (pages : List Text) → All (IsCandidate sha1) (scan sha1 pages)
scan-IsCandidate sha1 pages =
    let (d, (filed, _), e) = scan-IsScan sha1 pages in rw e (All-sorted_values sha1 d filed)

-- No two candidates of a scan have one id, so one review decides on one candidate.
pub scan_unique :
    (sha1 : Text → Text) (pages : List Text) (k : Text)
    → count (λ c. text_eq c.cid k) (scan sha1 pages) ≤ 1
scan_unique sha1 pages k =
    let (d, (filed, unique), e) = scan-IsScan sha1 pages in
    rw (e, count-sorted_values sha1 k d filed) (ground (arith, unique k))
