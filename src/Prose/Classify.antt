-- ===== src/Prose/Classify.antt =====
-- `auto_classify` of tools/state_prose_candidates.py. A class is its text, as a review file holds it.
pub mod Valid
use Prim.Native.String.{String}
use libhw.Base.{
  Bool, List, Option, Text, [], all, any, codes, false, if◌then◌else◌, keep, leb, length, map,
  member, none, not, some, take, true, upper, ℕ, ◌&&◌, ◌++◌, ◌==◌, ◌||◌, ◌∷◌,
}
use libhw.Base.Numeral.{decimal}
use libhw.Base.Regex.{Regex, alt, at_end, at_start, boundary, char, found_in, matches, seq}
use libhw.Base.Regex.Iterate.{findall, sub}
use libhw.Base.Regex.Patterns.{between, cap, cap_char, cat, digits, lit, lit_i, opt}
use libhw.Base.Regex.Texts.{lower}
use libhw.Importer.Target.{sorted}
use libhw.Manifest.Generate.Print.{comma_join}
use libhw.Prose.Patterns.{Kind, comma_set, family, instr_ref, phrase, range, through}
use libhw.Prose.Scan.{ProseCandidate, as_set}
use libhw.Sources.Lock.{is_empty}

-- A class and the reason for it.
abbrev pub Decision : Type 0
Decision = Text × Text

-- What the classification reads about the manifest and the document.
pub record Vocabulary : Type 0 where
  pub known : List Text
  pub families : List Text
  pub mnemonics : List Text
  pub fields : List Text
  pub front_matter : ℕ

-- `VALID`
abbrev pub valid : List Text
valid = map codes (
    "state" ∷ "alias" ∷ "field" ∷ "block_name" ∷ "covered_family" ∷ "already_covered"
    ∷ "false_positive" ∷ [])

-- `re.sub(r"(?:[nx]|\d+)$", "", name)`
unfoldable pub placeholder_end_re : Regex
unfolding digits
placeholder_end_re = seq (alt (char (λ c. c == b'n' || c == b'x')) digits) at_end

unfoldable pub family_base : Text → Text
unfolding sub placeholder_end_re
family_base name = sub placeholder_end_re [] name

-- `if test: return d`, and the first of such statements that returns
unfoldable pub when : Bool → Decision → Option Decision
when test d = if test then some d else none

unfoldable pub first_of : Option Decision → Option Decision → Option Decision
first_of (some d) later = some d
first_of none later = later

-- `names and all(p(n) for n in names)`
unfoldable pub every : (Text → Bool) → List Text → Bool
unfolding is_empty
every p names = not (is_empty names) && all p names

-- `names[0]`, asked for where `names` is not empty
unfoldable pub first_name : List Text → Text
first_name [] = []
first_name (n ∷ ns) = n

unfoldable pub is_covered : Vocabulary → Text → Bool
unfolding member family_base
is_covered v n = member n v.known || member (family_base n) v.families

abbrev pub false_positive : String → Decision
false_positive why = (codes "false_positive", codes why)

abbrev pub already_covered : String → Decision
already_covered why = (codes "already_covered", codes why)

unfoldable pub front_matter_reason : Decision
front_matter_reason =
    false_positive
      "document front matter (title, legal and revision text), before the first chapter"

-- The names by themselves.
unfoldable pub by_vocabulary : Vocabulary → List Text → Option Decision
unfolding when first_of every member family_base first_name decimal
by_vocabulary v names =
    first_of
      (when (every (λ n. member n v.mnemonics) names)
        (false_positive "instruction mnemonics, named by the instruction chapters' own headings"))
      (first_of
        (when (every (λ n. member n v.fields) names) (
          codes "field",
          codes "bit fields named by the manual's 'bit assignments' tables, not independent state",
        ))
        (first_of
          (when (every (λ n. member n v.mnemonics || member n v.fields) names) (
            false_positive "a mix of instruction mnemonics and bit-field names; no register named"))
          (first_of
            (when (every (λ n. member n v.known) names) (
              codes "already_covered",
              codes "all "
                  ++ decimal (length names)
                  ++ codes " name(s) are already state entries in the manifest",
            ))
            (when (every (λ n. member (family_base n) v.families) names) (
              codes "covered_family",
              codes "members of the "
                  ++ family_base (first_name names)
                  ++ codes "* array, already covered",
            )))))

-- `if c.kind == "family" and names: ...`
unfoldable pub by_family : Vocabulary → Kind → List Text → Option Decision
unfolding when is_empty is_covered first_name family_base
by_family v family names = when (not (is_empty names) && is_covered v (first_name names)) (
  codes "covered_family",
  codes "parameterised family already covered as " ++ family_base (first_name names) ++ codes "*",
)
by_family v _ names = none

unfoldable pub is_list_kind : Kind → Bool
is_list_kind range = true
is_list_kind through = true
is_list_kind comma_set = true
is_list_kind _ = false

-- `INSTRUCTION_SECTION_RE`
unfoldable pub instruction_section_re : Regex
unfolding lit cat
instruction_section_re =
    cat (at_start ∷ lit "A" ∷ char (λ c. leb b'4' c && leb c b'7') ∷ lit "." ∷ [])

-- `if c.kind in ("range", "through", "comma_set") and names: ...`
unfoldable pub by_list : Vocabulary → ProseCandidate → List Text → Option Decision
unfolding when first_of is_list_kind is_empty is_covered matches instruction_section_re
by_list v c names =
    let covered = keep (is_covered v) names in
    if is_list_kind c.kind && not (is_empty names)
    then first_of
        (when (not (is_empty covered) && length covered == length names)
          (already_covered "every member already present"))
        (when (is_empty covered && matches instruction_section_re c.section) (
          false_positive
            "register list in an instruction description; an operand range, not a definition of state"))
    else none

-- `\b[A-Z][A-Z0-9_]{1,15}\b`
unfoldable pub context_name_re : Regex
unfolding cap cap_char between cat
context_name_re = cat (boundary ∷ cap ∷ between 1 15 cap_char ∷ boundary ∷ [])

-- `FILE_PHRASES`
unfoldable pub file_phrases : List (Regex × Text)
unfolding lit opt
file_phrases =
    (lit "arm core register", codes "R0-R12, SP, LR, PC")
    ∷ (seq (opt (lit "fp ")) (lit "extension register"), codes "S0-S31 / D0-D15")
    ∷ (lit "single-precision register", codes "S0-S31")
    ∷ (lit "double-precision register", codes "D0-D15")
    ∷ (lit "special-purpose register", codes "PRIMASK, BASEPRI, FAULTMASK, CONTROL, xPSR")
    ∷ (lit "comparator register", codes "DWT_COMPn")
    ∷ (lit "stimulus port register", codes "ITM_STIM0-255")
    ∷ []

unfoldable pub by_phrase : Text → List (Regex × Text) → Option Decision
unfolding found_in
by_phrase blob [] = none
by_phrase blob ((rx, covers) ∷ ps) =
    let later = by_phrase blob ps in
    if found_in rx blob
    then some (
      codes "covered_family",
      codes "names a register file in words; already covered as " ++ covers,
    )
    else later

unfoldable pub is_count_kind : Kind → Bool
is_count_kind Kind.count = true
is_count_kind phrase = true
is_count_kind _ = false

-- `if not names and c.kind in ("count", "phrase"): ...`, which returns on every branch
unfoldable pub by_context : Vocabulary → ProseCandidate → Option Decision
unfolding when first_of findall context_name_re as_set is_covered is_empty comma_join sorted
    by_phrase file_phrases lower member
by_context v c =
    let ctx = as_set (findall context_name_re c.context) in
    let covered = keep (is_covered v) ctx in
    first_of
      (when (not (is_empty covered)) (
        codes "covered_family",
        codes "states the size or existence of a register file already covered ("
            ++ comma_join (take 3 (sorted covered))
            ++ codes ")",
      ))
      (first_of (by_phrase (lower (c.raw ++ codes " " ++ c.context)) file_phrases) (
        when (all (λ t. member t v.mnemonics || member t v.fields) ctx) (
          false_positive "a count or phrase about registers that names none; no state identified")))

-- `BLOCKS`
abbrev pub blocks : List Text
blocks =
    map codes
      ("DWT" ∷ "ITM" ∷ "TPIU" ∷ "FPB" ∷ "NVIC" ∷ "MPU" ∷ "SCB" ∷ "SCS" ∷ "CTI" ∷ "ETM" ∷ "DCB" ∷ [])

unfoldable pub is_instr_ref : Kind → Bool
is_instr_ref instr_ref = true
is_instr_ref _ = false

-- The statements behind those on counts and phrases.
unfoldable pub by_section : Vocabulary → ProseCandidate → List Text → Option Decision
unfolding when first_of is_empty is_covered found_in lit_i every member is_instr_ref first_name
by_section v c names =
    first_of
      (when
        (not (is_empty names)
          && found_in (lit_i "instruction") c.section
          && not (any (is_covered v) names))
        (false_positive
          "named in an instruction-set section; instruction mnemonics, not registers"))
      (first_of
        (when (every (λ n. member n blocks) names) (
          codes "block_name",
          codes
              "names debug/system blocks, not registers; their registers are enumerated in their own summary tables",
        ))
        (when (is_instr_ref c.kind && not (is_empty names) && is_covered v (first_name names))
          (already_covered "special register already present in the manifest")))

unfoldable pub auto_classify : Vocabulary → ProseCandidate → Option Decision
unfolding upper front_matter_reason first_of by_vocabulary by_family by_list is_empty is_count_kind
    by_context by_section
auto_classify v c =
    let names = map upper c.names in
    if leb c.page v.front_matter
    then some front_matter_reason
    else first_of (by_vocabulary v names) (
        first_of (by_family v c.kind names) (
          first_of (by_list v c names) (
            if is_empty names && is_count_kind c.kind
            then by_context v c
            else by_section v c names)))
