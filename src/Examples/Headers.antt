-- ===== src/Examples/Headers.antt =====
-- A small CMSIS header: its registers, and its comparison with a small manifest.
use Prim.Native.String.{String}
use libhw.Base.{
  All, List, Option, Text, [], codes, err, key_error, none, ok, refl, some, text_eq, ℕ, ◌∷◌, ◌≡◌,
}
use libhw.Base.Numeral.{int_16}
use libhw.Examples.Manifests.{id_entry}
use libhw.Manifest.Cmsis.{AddressDiff, AddressMap, CmsisReg}
use libhw.Manifest.Cmsis.Compared.{IsSplit, compare_header_lem}
use libhw.Manifest.Cmsis.Header.{Member, compare_header, parse_header, put_members}
use libhw.Manifest.Cmsis.Layout.{IsWithin, put_members-IsLaidOut}
use libhw.Manifest.Cmsis.Partition.{NoRepeat}
use libhw.Model.Entry.{ManifestEntry, state_id, to_dict}

-- An expression that is one number.
abbrev evaluate : Text → Option ℕ
unfolding int_16
evaluate e = int_16 e

abbrev members : List Member
members =
    record { type = codes "uint32_t"; name = codes "CPUID"; count = none }
    ∷ record { type = codes "uint8_t"; name = codes "RESERVED0"; count = some (codes "0x2") }
    ∷ record { type = codes "uint16_t"; name = codes "SHPR"; count = some (codes "0x2") }
    ∷ []

abbrev register : ℕ → String → ℕ → ℕ × CmsisReg
register a field width =
    (a, record { address = a; struct_name = codes "SCB"; field = codes field; width = width })

abbrev laid_out : AddressMap CmsisReg
laid_out = register 100 "CPUID" 32 ∷ register 106 "SHPR[0]" 16 ∷ register 108 "SHPR[1]" 16 ∷ []

put_members-IsLaidOut_example : All (IsWithin 100 110) laid_out × NoRepeat laid_out
put_members-IsLaidOut_example =
    put_members-IsLaidOut evaluate (codes "SCB") 100 [] members 10 laid_out
      (unfold put_members text_eq evaluate in refl)

-- A signed type is found, and has no size.
signed_member :
    put_members evaluate
      (codes "SCB")
      100
      []
      (record { type = codes "int32_t"; name = codes "X"; count = none } ∷ [])
      0
      []
    ≡ err key_error
unfolding put_members text_eq evaluate
signed_member = refl

abbrev header : Text
header =
    codes
      "#define SCB_BASE (0x64UL)\ntypedef struct\n{\n __IM uint32_t CPUID;\n union { uint8_t a; uint16_t b; } SHPR;\n} SCB_Type;\n"

parsed_header :
    parse_header evaluate header ≡ ok (register 100 "CPUID" 32 ∷ register 104 "SHPR" 16 ∷ [])
unfolding parse_header text_eq evaluate
parsed_header = refl

abbrev entry_at : String → ManifestEntry
unfolding state_id
entry_at encoding = record (to_dict id_entry) {
  encoding = some (codes encoding);
  encoding_kind = codes "absolute";
  access = some (codes "memory_mapped");
  classification = codes "emitted_state";
}

-- One entry at an address of the header, one elsewhere, one that is excluded, and one without an address.
abbrev entries : List ManifestEntry
unfolding state_id
entries =
    entry_at "0x64"
    ∷ entry_at "0x00000200"
    ∷ record (entry_at "0x68") { classification = codes "explicit_exclusion" }
    ∷ entry_at "16"
    ∷ []

abbrev header_diff : AddressDiff
header_diff = record {
  cmsis_registers = 2;
  manifest_registers = 2;
  in_both = 1;
  only_in_cmsis = 104 ∷ [];
  only_in_manifest = 512 ∷ [];
}

compare_header_lem_example :
    (cmsis : AddressMap CmsisReg) × (parse_header evaluate header ≡ ok cmsis)
    × IsSplit entries cmsis 512 header_diff
compare_header_lem_example =
    compare_header_lem evaluate header entries header_diff 512
      (unfold compare_header text_eq evaluate state_id in refl)
