-- ===== src/Manifest/Cmsis/Patterns.antt =====
-- tools/state/cmsis.py: the patterns for C headers, the sizes of types, and the bases of structs.
use libhw.Base.{Dict, Text, [], codes, not, true, ℕ, ◌&&◌, ◌==◌, ◌∷◌}
use libhw.Base.Regex.{Regex, char, group, lazy, line_start, seq, star}
use libhw.Base.Regex.Patterns.{any_of, cat, lit, name_char, opt, plus, spaces, spaces1}

-- `_TYPE_SIZE`
abbrev pub type_size : Dict ℕ
type_size =
    (codes "uint8_t", 1)
    ∷ (codes "uint16_t", 2)
    ∷ (codes "uint32_t", 4)
    ∷ (codes "uint64_t", 8)
    ∷ []

-- `.` under `re.S`
unfoldable pub any_char : Regex
any_char = char (λ c. true)

-- `\w+`, `[^\]]+`
unfoldable pub word : Regex
unfolding plus name_char
word = plus name_char

unfoldable pub array_count : Regex
unfolding opt cat lit plus
array_count =
    opt (cat (lit "[" ∷ group (codes "count") (plus (char (λ c. not (c == b']')))) ∷ lit "]" ∷ []))

-- `_STRUCT_RE`
unfoldable pub struct_re : Regex
unfolding cat lit spaces spaces1 any_char word
struct_re = cat (
    lit "typedef"
    ∷ spaces1
    ∷ lit "struct"
    ∷ spaces
    ∷ lit "{"
    ∷ group (codes "body") (lazy any_char)
    ∷ lit "}"
    ∷ spaces
    ∷ group (codes "name") word
    ∷ lit "_Type"
    ∷ spaces
    ∷ lit ";"
    ∷ [])

-- `_UNION_RE`
unfoldable pub union_re : Regex
unfolding cat lit spaces word array_count
union_re = cat (
    lit "union"
    ∷ spaces
    ∷ lit "{"
    ∷ group (codes "body") (star (char (λ c. not (c == b'{') && not (c == b'}'))))
    ∷ lit "}"
    ∷ spaces
    ∷ group (codes "name") word
    ∷ spaces
    ∷ array_count
    ∷ spaces
    ∷ lit ";"
    ∷ [])

-- `_MEMBER_RE`
unfoldable pub member_re : Regex
unfolding cat lit any_of opt spaces spaces1 word array_count
member_re = cat (
    line_start
    ∷ spaces
    ∷ opt (any_of (lit "__IM" ∷ lit "__OM" ∷ lit "__IOM" ∷ lit "volatile" ∷ lit "const" ∷ []))
    ∷ spaces
    ∷ group (codes "type") (
        cat (
          opt (lit "u")
          ∷ lit "int"
          ∷ any_of (lit "8" ∷ lit "16" ∷ lit "32" ∷ lit "64" ∷ [])
          ∷ lit "_t"
          ∷ []))
    ∷ spaces1
    ∷ group (codes "name") word
    ∷ spaces
    ∷ array_count
    ∷ spaces
    ∷ lit ";"
    ∷ [])

-- `_DEFINE_RE`
unfoldable pub define_re : Regex
unfolding cat lit spaces1 word
define_re = cat (
    line_start
    ∷ lit "#define"
    ∷ spaces1
    ∷ group (codes "name") (seq word (lit "_BASE"))
    ∷ spaces1
    ∷ lit "("
    ∷ group (codes "expr") (star (char (λ c. not (c == b')'))))
    ∷ lit ")"
    ∷ [])

-- `STRUCT_BASE`
abbrev pub struct_base : Dict Text
struct_base =
    (codes "SCB", codes "SCB_BASE")
    ∷ (codes "SysTick", codes "SysTick_BASE")
    ∷ (codes "NVIC", codes "NVIC_BASE")
    ∷ (codes "ITM", codes "ITM_BASE")
    ∷ (codes "DWT", codes "DWT_BASE")
    ∷ (codes "TPI", codes "TPI_BASE")
    ∷ (codes "CoreDebug", codes "CoreDebug_BASE")
    ∷ (codes "MPU", codes "MPU_BASE")
    ∷ (codes "FPU", codes "FPU_BASE")
    ∷ (codes "SCnSCB", codes "SCS_BASE")
    ∷ []
