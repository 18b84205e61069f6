-- ===== src/Manifest/Generate.antt =====
-- `generate_def` of tools/state/generate.py: the macro lines of a `.def` file. A line is a `Macro`;
-- `render` is what is printed of it.
pub mod Print
pub mod Lines
pub mod Components
use libhw.Base.{
  Bool, Dict, List, Option, Result, Text, [], codes, fold_result, if◌then◌else◌, is_digit, is_lower,
  is_upper, leb, map, none, not, ok, or_else, require, set_default, some, starts_with, take,
  text_eq, text_lt, upper, value_error, ℕ, ◌&&◌, ◌++◌, ◌-◌, ◌==◌, ◌>>=◌, ◌>>◌, ◌||◌, ◌∷◌,
}
use libhw.Base.Numeral.{int_16}
use libhw.Manifest.Coverage.{Manifest}
use libhw.Model.Entry.{Alias, ManifestEntry}
use libhw.Model.Identifier.{qualified_name}
use libhw.Sources.Lock.{is_empty}

-- `EMITTING`
unfoldable pub is_emitted : ManifestEntry → Bool
unfolding text_eq
is_emitted e =
    text_eq e.classification (codes "emitted_state")
    || text_eq e.classification (codes "conditional_state")

unfoldable pub ident_char : ℕ → ℕ
unfolding is_upper is_lower is_digit
ident_char c = if is_upper c || is_lower c || is_digit c || c == b'_' then c else b'_'

-- `_c_name`, of an ASCII name
unfoldable pub manifest_c_name : ManifestEntry → Text
unfolding qualified_name ident_char upper
manifest_c_name e = upper (map ident_char (qualified_name e.component e.canonical_name))

pub record StateLine : Type 0 where
  pub id : Text
  pub name : Text
  pub namespace : Text
  pub access : Text
  pub encoding : Text
  pub encoding_kind : Text
  pub width : ℕ
  pub readable : Bool
  pub writable : Bool
  pub snapshot : Bool
  pub feature : Text
  pub component : Text

pub data Macro : Type 0 where
  hw_state : StateLine → Macro
  -- id, and the alias
  hw_alias : Text → Alias → Macro
  -- id, name, encoding, reason
  hw_operation : Text → Text → Text → Text → Macro
  -- name, base
  hw_component : Text → ℕ → Macro
  -- id, name, regsel, lsb, width
  hw_dbgreg : Text → Text → ℕ → ℕ → ℕ → Macro

-- `e.get("width") or 32`
unfoldable pub width_or_32 : Option ℕ → ℕ
width_or_32 none = 32
width_or_32 (some n) = if n == 0 then 32 else n

unfoldable pub state_line : ManifestEntry → StateLine
unfolding manifest_c_name or_else upper width_or_32
state_line e = record {
  id = manifest_c_name e;
  name = e.canonical_name;
  namespace = upper e.namespace;
  access = upper (or_else e.access (codes "memory_mapped"));
  encoding = or_else e.encoding [];
  encoding_kind = upper (or_else (some e.encoding_kind) (codes "absolute"));
  width = width_or_32 e.width;
  readable = e.readable;
  writable = e.writable;
  snapshot = e.snapshot;
  feature = or_else e.feature_requirement [];
  component = e.component;
}

-- `reason.replace('"', "'")[:90]`
unfoldable pub operation_reason : Option Text → Text
unfolding or_else
operation_reason reason = take 90 (map (λ c. if c == 34 then 39 else c) (or_else reason []))

unfoldable pub alias_lines : ManifestEntry → Option Alias → List Macro
unfolding manifest_c_name
alias_lines e none = []
alias_lines e (some a) = hw_alias (manifest_c_name e) a ∷ []

-- The line of one entry in the first loop, if it has one. An alias with no target is none of the
-- later cases either.
unfoldable pub entry_lines : ManifestEntry → List Macro
unfolding is_emitted state_line alias_lines operation_reason text_eq manifest_c_name or_else
entry_lines e =
    if is_emitted e
    then hw_state (state_line e) ∷ []
    else if text_eq e.classification (codes "alias")
    then alias_lines e e.alias_of
    else if text_eq e.classification (codes "non_state_operation")
    then hw_operation (manifest_c_name e) e.canonical_name (or_else e.encoding [])
        (operation_reason e.reason)
      ∷ []
    else []

unfoldable pub state_lines : List ManifestEntry → List Macro
unfolding entry_lines
state_lines [] = []
state_lines (e ∷ es) = entry_lines e ++ state_lines es

abbrev pub cidr_offset : ℕ
cidr_offset = 0xFF0

abbrev pub ppb_base : ℕ
ppb_base = 0xE0000000

-- The entry is the CIDR0 of a component at an absolute address.
unfoldable pub names_block : ManifestEntry → Bool
unfolding is_empty text_eq upper starts_with or_else
names_block e =
    not (is_empty e.component || not (text_eq e.encoding_kind (codes "absolute")))
    && ((text_eq (upper e.canonical_name) (codes "CID0")
          || text_eq (upper e.canonical_name) (codes "CIDR0"))
        && starts_with (or_else e.encoding []) (codes "0x"))

-- `int(enc, 16) - 0xFF0`: a negative base is below the bus as zero is.
unfoldable pub add_component : ManifestEntry → Dict ℕ → Result (Dict ℕ)
unfolding names_block int_16 or_else set_default
add_component e comps =
    if names_block e
    then (do
      address ← require (int_16 (or_else e.encoding [])) value_error
      let base = address - cidr_offset
      ok (if leb ppb_base base then set_default e.component base comps else comps))
    else ok comps

unfoldable pub insert_item : Text × ℕ → Dict ℕ → Dict ℕ
unfolding text_lt
insert_item x [] = x ∷ []
insert_item (k, v) ((j, w) ∷ d) =
    if text_lt j k then (j, w) ∷ insert_item (k, v) d else (k, v) ∷ (j, w) ∷ d

-- `sorted(comps.items())`, by insertion
unfoldable pub sorted_items : Dict ℕ → Dict ℕ
unfolding insert_item
sorted_items [] = []
sorted_items (x ∷ d) = insert_item x (sorted_items d)

unfoldable pub component_lines : List ManifestEntry → Result (List Macro)
unfolding fold_result add_component sorted_items
component_lines es = do
  comps ← fold_result add_component es []
  ok (map (λ (name, base). hw_component name base) (sorted_items comps))

unfoldable pub dbgreg_line : ManifestEntry → Option ℕ → List Macro
unfolding is_emitted manifest_c_name
dbgreg_line e none = []
dbgreg_line e (some regsel) =
    if is_emitted e
    then hw_dbgreg (manifest_c_name e) e.canonical_name regsel e.debug_lsb e.debug_width ∷ []
    else []

unfoldable pub dbgreg_lines : List ManifestEntry → List Macro
unfolding dbgreg_line
dbgreg_lines [] = []
dbgreg_lines (e ∷ es) = dbgreg_line e e.debug_regsel ++ dbgreg_lines es

-- The macro lines of a file, between its fixed first and last lines.
unfoldable pub generate_def : Manifest → Result (List Macro)
unfolding state_lines component_lines dbgreg_lines
generate_def doc = do
  components ← component_lines doc.entries
  ok (state_lines doc.entries ++ (components ++ dbgreg_lines doc.entries))
