-- ===== src/Importer/Declared.antt =====
-- The loops of `import_target` in tools/state/importer.py over the registers that a manual documents
-- outside its summary tables: declared ones, and register files stated in prose.
pub mod Doubles
pub mod Appends
use libhw.Base.{
  Dict, List, Option, Result, Text, [], codes, count, err, false, fold_result, has_key,
  if◌then◌else◌, insert, key_error, min, none, not, ok, or_else, range_from, require, some, true,
  truthy, type_error, value_error, ℕ, ◌*◌, ◌++◌, ◌+◌, ◌==◌, ◌>>=◌, ◌>>◌, ◌||◌, ◌∷◌,
}
use libhw.Base.Numeral.{decimal}
use libhw.Model.Kinds.{
  Access, Classification, access_of, arch, classification_of, conditional_state, core_reg,
  memory_mapped, same_class,
}
use libhw.Model.Entry.{Alias, StateEntry}
use libhw.Importer.Rules.{Inputs, Override, RegisterFile}
use libhw.Importer.Records.{get_or_32, override_alias, source_family, source_release}

-- `entries` and `seen`.
pub record Book : Type 0 where
  pub entries : List StateEntry
  pub seen : Dict StateEntry

unfoldable pub declared_entry : Inputs → Text → Override → Classification → StateEntry
unfolding override_alias get_or_32 source_release
declared_entry inp name ov cls = record {
  canonical_name = name;
  source_id = codes "declared:" ++ name;
  architecture = inp.architecture;
  namespace = arch;
  classification = cls;
  provenance = record {
    document = inp.document;
    revision = inp.revision;
    section = ov.provenance_section;
    table = ov.provenance_table;
    row = name;
    page = none;
  };
  width = some (get_or_32 ov.bit_width);
  access = some memory_mapped;
  encoding = ov.address;
  encoding_kind = codes "absolute";
  readable = true;
  writable = true;
  feature_requirement = none;
  alias_of = override_alias (some ov);
  reason = ov.reason;
  snapshot = false;
  derivation = codes "declared";
  source_family = codes "ARM_ARM";
  source_release = source_release inp;
  debug_regsel = none;
  debug_lsb = 0;
  debug_width = 32;
  component = [];
}

-- `seen[name] = entry; entries.append(entry)`: the key here is the name, not the identifier.
unfoldable pub record_under : Text → StateEntry → Book → Book
unfolding insert
record_under name e b = record { entries = b.entries ++ (e ∷ []); seen = insert name e b.seen }

unfoldable pub import_declared : Inputs → Text × Option Override → Book → Result Book
unfolding has_key declared_entry record_under classification_of
import_declared inp (name, none) b = ok b
import_declared inp (name, some ov) b = if not ov.declare || has_key name b.seen then ok b else (do
  raw ← require ov.class key_error
  cls ← classification_of raw
  ok (record_under name (declared_entry inp name ov cls) b))

-- What follows the number in `fmt % n`: `%%` is a percent sign, and nothing else may be converted.
unfoldable pub format_rest : Text → Result Text
format_rest [] = ok []
format_rest (c ∷ []) = if c == b'%' then err value_error else ok (c ∷ [])
format_rest (c ∷ d ∷ r) =
    let escaped = format_rest r in
    let plain = format_rest (d ∷ r) in
    if c == b'%'
    then (if d == b'%' then (do t ← escaped; ok (b'%' ∷ t)) else err type_error)
    else (do t ← plain; ok (c ∷ t))

-- `fmt % n` for the conversions `%d` and `%%`; any other conversion counts as an error.
unfoldable pub format_number : Text → ℕ → Result Text
unfolding format_rest decimal
format_number [] n = err type_error
format_number (c ∷ []) n = err type_error
format_number (c ∷ d ∷ r) n =
    let escaped = format_number r n in
    let plain = format_number (d ∷ r) n in
    if c == b'%'
    then (if d == b'd'
        then (do t ← format_rest r; ok (decimal n ++ t))
        else if d == b'%'
        then (do t ← escaped; ok (b'%' ∷ t))
        else err value_error)
    else (do t ← plain; ok (c ∷ t))

unfoldable pub get_or_one : Option ℕ → ℕ
get_or_one none = 1
get_or_one (some k) = k

unfoldable pub file_alias : RegisterFile → ℕ → Result (Option Alias)
unfolding truthy or_else format_number get_or_32 get_or_one
file_alias spec n =
    if truthy spec.alias_format
    then (do
      target ← format_number (or_else spec.alias_format []) (n * get_or_one spec.alias_index_stride)
      ok (some (record { target = target; bit_offset = 0; bit_width = get_or_32 spec.width })))
    else ok none

unfoldable pub file_entry :
    Inputs → Text → RegisterFile → Classification → ℕ → Text → Option Alias → Access → StateEntry
unfolding get_or_32 same_class source_release
file_entry inp fkey spec cls n name alias_of access = record {
  canonical_name = name;
  source_id = fkey ++ (b':' ∷ name);
  architecture = inp.architecture;
  namespace = arch;
  classification = cls;
  provenance = record {
    document = inp.document;
    revision = inp.revision;
    section = spec.provenance_section;
    table = spec.provenance_table;
    row = name;
    page = none;
  };
  width = some (get_or_32 spec.width);
  access = some access;
  encoding = none;
  encoding_kind = codes "core";
  readable = true;
  writable = true;
  feature_requirement = spec.requires;
  alias_of = alias_of;
  reason = spec.reason;
  snapshot = same_class cls conditional_state;
  derivation = codes "register_file";
  source_family = codes "ARM_ARM";
  source_release = source_release inp;
  debug_regsel = elim spec.dcrsr_regsel_base [ none ↦ none | some base ↦ some (base + n) ];
  debug_lsb = 0;
  debug_width = min (get_or_32 spec.width) 32;
  component = codes "FPREGS";
}

unfoldable pub file_access : RegisterFile → Result Access
unfolding access_of
file_access spec = elim spec.access [ none ↦ ok core_reg | some a ↦ access_of a ]

-- One register of a file.
unfoldable pub import_member :
    Inputs → Text → RegisterFile → Classification → ℕ → Book → Result Book
unfolding format_number has_key file_alias file_access file_entry record_under
import_member inp fkey spec cls n b = do
  name ← format_number spec.name_format n
  if has_key name b.seen then ok b else (do
    alias_of ← file_alias spec n
    access ← file_access spec
    ok (record_under name (file_entry inp fkey spec cls n name alias_of access) b))

unfoldable pub import_file : Inputs → Text × RegisterFile → Book → Result Book
unfolding classification_of import_member fold_result
import_file inp (fkey, spec) b = do
  cls ← classification_of spec.class
  fold_result (import_member inp fkey spec cls) (range_from 0 spec.count) b
