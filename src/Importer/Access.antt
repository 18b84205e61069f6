-- ===== src/Importer/Access.antt =====
-- `PROFILE_ACCESS`, `PROFILE_ENCODING_KIND` and `_access_flags` of tools/state/importer.py.
use libhw.Base.{
  Bool, Result, Text, arith, codes, err, false, if◌then◌else◌, key_error, ok, text_eq, true, upper,
  ◌||◌, ◌≡◌,
}
use libhw.Model.Kinds.{Access, core_reg, fp_sysreg, memory_mapped, special_reg}

-- `PROFILE_ACCESS[profile]`
unfoldable pub profile_access : Text → Result Access
unfolding text_eq
profile_access p =
    if text_eq p (codes "addr_name_type_reset")
    then ok memory_mapped
    else if text_eq p (codes "addr_register_value")
    then ok memory_mapped
    else if text_eq p (codes "offset_type_name")
    then ok memory_mapped
    else if text_eq p (codes "offset_value_name")
    then ok memory_mapped
    else if text_eq p (codes "core_register_index")
    then ok core_reg
    else if text_eq p (codes "special_register_sysm")
    then ok special_reg
    else if text_eq p (codes "fp_common_block")
    then ok fp_sysreg
    else if text_eq p (codes "addr_type_reset_descname")
    then ok memory_mapped
    else err key_error

-- `PROFILE_ENCODING_KIND.get(profile, "absolute")`
unfoldable pub profile_encoding_kind : Text → Text
unfolding text_eq
profile_encoding_kind p =
    if text_eq p (codes "offset_type_name")
    then codes "offset"
    else if text_eq p (codes "offset_value_name")
    then codes "offset"
    else if text_eq p (codes "core_register_index")
    then codes "core"
    else if text_eq p (codes "special_register_sysm")
    then codes "sysm"
    else if text_eq p (codes "fp_common_block")
    then codes "fp_sysreg"
    else codes "absolute"

-- `_access_flags`: whether a register with the access type `typ` can be read, and written.
unfoldable pub access_flags : Text → Bool × Bool
unfolding text_eq upper
access_flags typ =
    let t = upper typ in
    if text_eq t (codes "WO")
    then (false, true)
    else if text_eq t (codes "RO") || text_eq t (codes "RAZ")
    then (true, false)
    else if text_eq t (codes "WI")
    then (false, true)
    else (true, true)

-- A register that the importer knows cannot be read can be written, and the other way round.
pub access_flags_some : (typ : Text) → ((access_flags typ).0 || (access_flags typ).1) ≡ true
unfolding access_flags
access_flags_some typ = ground arith
