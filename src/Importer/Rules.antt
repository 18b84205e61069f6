-- ===== src/Importer/Rules.antt =====
-- The inputs of `import_target` in tools/state/importer.py: the reviewed rules as the YAML loader
-- returns them, and the rows that a profile of tools/state/profiles.py makes of a table.
use libhw.Base.{Bool, Dict, List, Option, Text, ℕ}
use libhw.Pdf.Table.{Table}

-- `RawRecord` of tools/state/profiles.py. `none` is Python's `None`; a key that a profile leaves
-- out (`sysm`) is `none` too.
pub record RawRecord : Type 0 where
  pub name : Option Text
  pub address : Option Text
  pub access : Text
  pub reset : Option Text
  pub description : Text
  pub reserved : Bool
  pub page : Option ℕ
  pub sysm : Option ℕ
  pub alt_name : Option Text

-- A decision on one table.
pub record Rule : Type 0 where
  pub keep : Bool
  pub profile : Text
  pub namespace : Text
  pub feature_requirement : Option Text
  pub classification : Option Text
  pub classification_reason : Option Text
  pub component : Text
  pub caption : Text

pub record Rules : Type 0 where
  pub source : Text
  pub architecture : Text
  pub tables : Dict Rule
  pub crosscheck_indexes : List Text

-- A reviewed override of one register. `requires` is `none` if the key is absent.
pub record Override : Type 0 where
  pub class : Option Text
  pub reason : Option Text
  pub requires : Option (Option Text)
  pub alias_of : Option Text
  pub bit_offset : Option ℕ
  pub bit_width : Option ℕ
  pub declare : Bool
  pub address : Option Text
  pub provenance_section : Text
  pub provenance_table : Text

-- A debug access path.
pub record AccessPath : Type 0 where
  pub regsel : Option ℕ
  pub lsb : Option ℕ
  pub width : Option ℕ

-- A register file that the manual describes in prose.
pub record RegisterFile : Type 0 where
  pub class : Text
  pub count : ℕ
  pub name_format : Text
  pub alias_format : Option Text
  pub alias_index_stride : Option ℕ
  pub width : Option ℕ
  pub access : Option Text
  pub requires : Option Text
  pub reason : Option Text
  pub dcrsr_regsel_base : Option ℕ
  pub provenance_section : Text
  pub provenance_table : Text

-- What one import reads. An override of `none` is an empty mapping. `profiles` are the row parsers
-- by name, and `unparsed_rows` the lines of a table that look like rows and gave no record.
pub record Inputs : Type 0 where
  pub architecture : Text
  pub document : Text
  pub revision : Text
  pub overrides : Dict (Option Override)
  pub access_paths : Dict AccessPath
  pub register_files : Dict RegisterFile
  pub arch_names : List Text
  pub arch_addrs : Dict Text
  pub profiles : Dict (Table → List RawRecord)
  pub unparsed_rows : Table → List (ℕ × Text)
