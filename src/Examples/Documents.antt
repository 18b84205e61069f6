-- ===== src/Examples/Documents.antt =====
-- Small data: a machine with one manual, its lock, and the rules of a target.
use libhw.Base.{
  Bool, Dict, List, Option, Result, Text, [], codes, false, length, none, ok, some, true, ◌==◌, ◌∷◌,
}
use libhw.Model.Entry.{StateEntry}
use libhw.Sources.{Machine, Source}
use libhw.Sources.Lock.{Lock, RawSource}
use libhw.Pdf.Table.{Table}
use libhw.Importer.Rules.{Inputs, Override, RawRecord, RegisterFile, Rule, Rules}
use libhw.Importer.Tables.{Import}
use libhw.Importer.Report.{no_counts}
use libhw.Importer.Target.{Document, ImportReport, Reviewed, inputs_of}

-- The value that a call returned, or `d` if it raised.
unfoldable pub got {ℓ} : {A : Type ℓ} → A → Result A → A
got d (ok a) = a
got d _ = d

abbrev pub manual_path : Text
manual_path = codes "/m.pdf"

-- The digest is the content itself.
abbrev pub machine : Machine
machine = record {
  environ = λ _. none;
  expanduser = λ p. p;
  is_file = λ p. length p == 6;
  content = λ _. 1 ∷ 2 ∷ 3 ∷ [];
  digest = λ bytes. bytes;
  repo_root = codes "/repo";
}

abbrev pub raw_source : RawSource
raw_source = record {
  names = codes "kind" ∷ codes "path" ∷ [];
  kind = some (codes "arm_arm");
  document = some (codes "DDI0403");
  revision = some (codes "E");
  title = some (codes "Manual");
  architecture = some (codes "ARMv7-M");
  sha256 = some (1 ∷ 2 ∷ 3 ∷ []);
  path = some manual_path;
  bytes = some 3;
  pages = none;
  product_revision = none;
  acquired = none;
  redistributable = false;
  url = none;
  notes = none;
}

abbrev pub lock : Lock
lock = record { schema_version = some 1; sources = (codes "arm", raw_source) ∷ [] }

abbrev pub source : Source
source = record {
  key = codes "arm";
  kind = codes "arm_arm";
  document = codes "DDI0403";
  revision = codes "E";
  title = codes "Manual";
  architecture = codes "ARMv7-M";
  sha256 = 1 ∷ 2 ∷ 3 ∷ [];
  path = manual_path;
  bytes = some 3;
  pages = none;
  product_revision = none;
  acquired = none;
  redistributable = false;
  url = none;
  notes = none;
}

abbrev pub table : Table
table = record {
  table_id = codes "B3-4";
  caption = codes "Summary of SCB registers";
  section = codes "B3.2 System Control Space";
  page = 10;
  columns = [];
  rows = [];
  raw_lines = (10, codes "   CPUID       CPUID Base Register") ∷ [];
  consumed_lines = [];
  rejected_rows = [];
}

abbrev pub row : Option Text → Bool → RawRecord
row name reserved = record {
  name = name;
  address = some (codes "0xE000ED00");
  access = codes "RO";
  reset = none;
  description = [];
  reserved = reserved;
  page = some 10;
  sysm = none;
  alt_name = none;
}

-- A register, the same register again, and a reserved row.
abbrev pub rows : List RawRecord
rows = row (some (codes "CPUID")) false ∷ row (some (codes "CPUID")) false ∷ row none true ∷ []

abbrev pub profile_name : Text
profile_name = codes "addr_name_type_reset"

abbrev pub rule : Rule
rule = record {
  keep = true;
  profile = profile_name;
  namespace = codes "arch";
  feature_requirement = none;
  classification = none;
  classification_reason = none;
  component = codes "SCB";
  caption = codes "Summary of SCB registers";
}

abbrev pub rules : Rules
rules = record {
  source = codes "arm";
  architecture = codes "ARMv7-M";
  tables = (codes "B3-4", rule) ∷ [];
  crosscheck_indexes = [];
}

-- A declaration of the register that the table lists too.
abbrev pub declaration : Override
declaration = record {
  class = some (codes "emitted_state");
  reason = none;
  requires = none;
  alias_of = none;
  bit_offset = none;
  bit_width = none;
  declare = true;
  address = some (codes "0xE000ED00");
  provenance_section = [];
  provenance_table = [];
}

abbrev pub fp_file : RegisterFile
fp_file = record {
  class = codes "conditional_state";
  count = 2;
  name_format = codes "S%d";
  alias_format = none;
  alias_index_stride = none;
  width = some 32;
  access = none;
  requires = some (codes "FP");
  reason = none;
  dcrsr_regsel_base = some 64;
  provenance_section = [];
  provenance_table = [];
}

abbrev pub reviewed : Reviewed
reviewed = record {
  rules = some rules;
  overrides = [];
  access_paths = [];
  register_files = (codes "fp", fp_file) ∷ [];
}

abbrev pub document : Document
document = record {
  extract_tables = λ path ids. record { tables = table ∷ []; found = codes "B3-4" ∷ [] };
  profiles = (profile_name, λ t. rows) ∷ [];
  unparsed_rows = λ t. [];
}

unfoldable pub inputs : Inputs
unfolding inputs_of
inputs = inputs_of reviewed rules source document [] []

abbrev pub tables : Dict Table
tables = (codes "B3-4", table) ∷ []

abbrev pub table_ids : List Text
table_ids = codes "B3-4" ∷ []

abbrev pub nothing : List StateEntry × ImportReport
nothing = (
  [],
  record {
    architecture = [];
    document = [];
    revision = [];
    source_records = 0;
    counts = no_counts;
    tables = [];
    crosschecks = [];
    unclassified = [];
  },
)

abbrev pub no_import : Import
no_import = record { entries = []; seen = []; tables = []; source_records = 0 }
