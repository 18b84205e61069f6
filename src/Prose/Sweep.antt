-- ===== src/Prose/Sweep.antt =====
-- tools/state_prose_sweep.py: the headings that describe a register, against the manifest.
pub mod Accounted
use libhw.Base.{
  Bool, Dict, List, Option, Text, [], any, codes, has_key, if◌then◌else◌, keep, map, member, none,
  not, some, strip_prefix, text_eq, upper, ℕ, ◌&&◌, ◌++◌, ◌==◌, ◌||◌, ◌∷◌,
}
use libhw.Base.Regex.{
  Regex, at_end, at_start, boundary, char, found_in, group, lazy, line_end, line_start, matches,
  search, seq, text_of_group,
}
use libhw.Base.Regex.Iterate.{Occurrence, finditer, sub}
use libhw.Base.Regex.Patterns.{
  any_of, between, cap, cap_char, cat, dot, lit, lit_i, non_space, opt, spaces, spaces1,
}
use libhw.Prose.Candidates.{fail_if}
use libhw.Prose.Classify.{placeholder_end_re}
use libhw.Prose.Patterns.{register_word_i, section_number}
use libhw.Sources.Lock.{is_empty}

-- `SECTION_RE`
unfoldable pub sweep_section_re : Regex
unfolding section_number opt cap spaces spaces1 non_space dot cat
sweep_section_re = cat (
    line_start
    ∷ group (codes "sec") (section_number (opt cap))
    ∷ spaces1
    ∷ group (codes "title") (seq non_space (lazy dot))
    ∷ spaces
    ∷ line_end
    ∷ [])

-- `INSTRUCTION_CHAPTER_RE`
unfoldable pub instruction_chapter_re : Regex
unfolding lit cat
instruction_chapter_re =
    cat (at_start ∷ lit "A" ∷ char (λ c. c == b'6' || c == b'7') ∷ lit "." ∷ [])

-- `MNEMONIC_RE`
unfoldable pub mnemonic_end_re : Regex
unfolding lit spaces cap cap_char between cat
mnemonic_end_re =
    cat (
      lit "," ∷ spaces ∷ group (codes "1") (seq cap (between 1 15 cap_char)) ∷ spaces ∷ at_end ∷ [])

-- `GROUP_RE`
unfoldable pub group_re : Regex
unfolding register_word_i lit_i any_of cat
group_re = any_of (
    cat (boundary ∷ register_word_i ∷ boundary ∷ [])
    ∷ cat (boundary ∷ lit_i "register file" ∷ boundary ∷ [])
    ∷ cat (boundary ∷ lit_i "register bank" ∷ boundary ∷ [])
    ∷ [])

-- `BLOCK_PREFIXES`
abbrev pub block_prefixes : List Text
block_prefixes =
    map codes ("TPIU_" ∷ "ITM_" ∷ "DWT_" ∷ "FP_" ∷ "MPU_" ∷ "NVIC_" ∷ "SYST_" ∷ "CTI_" ∷ [])

unfoldable pub normalise : Text → Text
unfolding sub placeholder_end_re
normalise name = sub placeholder_end_re [] name

unfoldable pub prefixed_spellings : Text → List Text → List Text
unfolding strip_prefix normalise
prefixed_spellings name [] = []
prefixed_spellings name (pfx ∷ ps) =
    let added = (pfx ++ name) ∷ normalise (pfx ++ name) ∷ prefixed_spellings name ps in
    elim (strip_prefix name pfx) [ none ↦ added | some cut ↦ cut ∷ normalise cut ∷ added ]

-- `spellings(name)`
unfoldable pub spellings : Text → List Text
unfolding normalise prefixed_spellings is_empty
spellings name =
    keep (λ s. not (is_empty s)) (name ∷ normalise name ∷ prefixed_spellings name block_prefixes)

-- A heading, by its section and its title.
abbrev pub Key : Type 0
Key = Text × Text

unfoldable pub key_of : Occurrence → Key
unfolding text_of_group
key_of f = (text_of_group f.found "sec", text_of_group f.found "title")

-- `{"section": sec, "title": title, "name": mm.group(1)}`
pub record Heading : Type 0 where
  pub section : Text
  pub title : Text
  pub name : Text

pub record Headings : Type 0 where
  pub described : List Heading
  pub groups : List Key

unfoldable pub key_eq : Key → Key → Bool
unfolding text_eq
key_eq (a, b) (c, d) = text_eq a c && text_eq b d

-- The name that a title ends in.
unfoldable pub mnemonic_of : Text → Option Text
unfolding search mnemonic_end_re text_of_group
mnemonic_of title = elim (search mnemonic_end_re title) [
  | none ↦ none
  | some (skipped, m) ↦ some (text_of_group m "1")
]

-- `if mm: ... elif GROUP_RE.search(title): ...`
unfoldable pub add_titled : Option Text → Key → Headings → Headings
unfolding found_in group_re
add_titled (some name) (sec, title) h = record h {
  described = record { section = sec; title = title; name = name } ∷ h.described;
}
add_titled none (sec, title) h =
    if found_in group_re title then record h { groups = (sec, title) ∷ h.groups } else h

unfoldable pub add_heading : Key → Headings → Headings
unfolding add_titled mnemonic_of
add_heading k h = add_titled (mnemonic_of k.1) k h

unfoldable pub in_instructions : Key → Bool
unfolding matches instruction_chapter_re
in_instructions (sec, title) = matches instruction_chapter_re sec

-- `continue`: a heading of the instruction set, or one that was seen
unfoldable pub is_skipped : List Key → Key → Bool
unfolding in_instructions key_eq
is_skipped seen k = in_instructions k || any (key_eq k) seen

-- The loop over the headings; each list is built from its end.
unfoldable pub collect : List Key → List Key → Headings
unfolding is_skipped add_heading
collect seen [] = record { described = []; groups = [] }
collect seen (k ∷ ks) =
    let later = collect (if is_skipped seen k then seen else k ∷ seen) ks in
    if is_skipped seen k then later else add_heading k later

-- The names of a manifest, in capitals, with and without a placeholder.
unfoldable pub sweep_known : List Text → List Text
unfolding upper normalise
sweep_known names = map upper names ++ map (λ n. normalise (upper n)) names

unfoldable pub is_matched : List Text → Text → Bool
unfolding spellings upper member
is_matched known name = any (λ s. member s known) (spellings (upper name))

-- `sweep(target)`, of the document's text and the names of the manifest
unfoldable pub sweep : Text → List Text → List Heading × List Key
unfolding collect finditer sweep_section_re key_of is_matched sweep_known
sweep text names =
    let found = collect [] (map key_of (finditer sweep_section_re text)) in
    (keep (λ d. not (is_matched (sweep_known names) d.name)) found.described, found.groups)

-- `main`, from the manifest on, with the entries of `not_registers`
unfoldable pub sweep_status : Text → List Text → Dict (Option Text) → ℕ
unfolding sweep has_key is_empty
sweep_status text names reviewed =
    let (unmatched, groups) = sweep text names in
    fail_if (not (is_empty (keep (λ d. not (has_key d.name reviewed)) unmatched)))
