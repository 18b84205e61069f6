-- ===== src/Importer/Records.antt =====
-- The loop body of `import_target` in tools/state/importer.py for one record of a table.
pub mod Balance
pub mod Traced
pub mod Unique
use libhw.Base.{
  Bool, Dict, List, Option, Result, Text, [], codes, false, if◌then◌else◌, insert, lookup, none,
  not, ok, or_else, some, strip, take, text_eq, true, truthy, ℕ, ◌&&◌, ◌++◌, ◌+◌, ◌>>=◌, ◌>>◌, ◌||◌,
  ◌∷◌,
}
use libhw.Base.Numeral.{decimal}
use libhw.Model.Kinds.{
  Access, Classification, Namespace, alias, arch, architecture_defined, conditional_state, cpu,
  emitted_state, explicit_exclusion, non_state_operation, same_class,
}
use libhw.Model.Entry.{Alias, Provenance, StateEntry, state_id}
use libhw.Pdf.Table.{Table, label}
use libhw.Importer.Rules.{AccessPath, Inputs, Override, RawRecord, Rule}
use libhw.Importer.Access.{access_flags, profile_access, profile_encoding_kind}
use libhw.Importer.Classify.{Verdict, classify, override_of}

-- `stats` of one table.
pub record Stats : Type 0 where
  pub rows : ℕ
  pub emitted : ℕ
  pub conditional : ℕ
  pub alias_rows : ℕ
  pub architecture_rows : ℕ
  pub excluded : ℕ
  pub operation : ℕ

-- `entries` and `seen`, and the `stats` of the table that is being read.
pub record Progress : Type 0 where
  pub entries : List StateEntry
  pub seen : Dict StateEntry
  pub stats : Stats

unfoldable pub source_family : Text → Text
unfolding text_eq
source_family document =
    if text_eq document (codes "DDI0489") then codes "ARM_TRM" else codes "ARM_ARM"

unfoldable pub source_release : Inputs → Text
source_release inp = inp.document ++ (b' ' ∷ inp.revision)

-- `f"{address}"`, where `None` is printed by its name.
unfoldable pub show_address : Option Text → Text
show_address none = codes "None"
show_address (some a) = a

unfoldable pub provenance_of : Inputs → Rule → Table → RawRecord → Provenance
unfolding label or_else
provenance_of inp rule table rec = record {
  document = inp.document;
  revision = inp.revision;
  section = or_else (some table.section) rule.caption;
  table = label table;
  row = or_else rec.name (or_else rec.address (codes "reserved"));
  page = rec.page;
}

-- The reason of a reserved row: its description, cut to 160 characters.
unfoldable pub reserved_reason : Text → Text
unfolding or_else strip
reserved_reason description =
    or_else (some (take 160 (strip (or_else (some description) (codes "Reserved")))))
      (codes "Reserved address range; not an architectural state element")

unfoldable pub reserved_entry : Inputs → Text → Rule → Table → RawRecord → Access → StateEntry
unfolding show_address provenance_of reserved_reason source_family source_release
reserved_entry inp tid rule table rec access = record {
  canonical_name = codes "RESERVED_" ++ show_address rec.address;
  source_id = tid ++ (b':' ∷ show_address rec.address);
  architecture = inp.architecture;
  namespace = arch;
  classification = explicit_exclusion;
  provenance = provenance_of inp rule table rec;
  width = none;
  access = some access;
  encoding = rec.address;
  encoding_kind = codes "absolute";
  readable = true;
  writable = true;
  feature_requirement = none;
  alias_of = none;
  reason = some (reserved_reason rec.description);
  snapshot = false;
  derivation = codes "table";
  source_family = source_family inp.document;
  source_release = source_release inp;
  debug_regsel = none;
  debug_lsb = 0;
  debug_width = 32;
  component = [];
}

-- `rec.get("address") if … else (f"SYSm={…}" if … else None)`
unfoldable pub encoding_of : Option Text → Option ℕ → Option Text
unfolding truthy decimal
encoding_of address none = if truthy address then address else none
encoding_of address (some n) = if truthy address then address else some (codes "SYSm=" ++ decimal n)

unfoldable pub get_or_zero : Option ℕ → ℕ
get_or_zero none = 0
get_or_zero (some n) = n

unfoldable pub get_or_32 : Option ℕ → ℕ
get_or_32 none = 32
get_or_32 (some n) = n

-- `access_paths.get(name) or {}`
unfoldable pub access_path_of : Text → Dict AccessPath → AccessPath
unfolding lookup
access_path_of name d = elim (lookup name d) [
  | none ↦ record { regsel = none; lsb = none; width = none }
  | some p ↦ p
]

unfoldable pub override_alias : Option Override → Option Alias
unfolding truthy or_else get_or_zero get_or_32
override_alias none = none
override_alias (some ov) =
    if truthy ov.alias_of
    then some (record {
      target = or_else ov.alias_of [];
      bit_offset = get_or_zero ov.bit_offset;
      bit_width = get_or_32 ov.bit_width;
    })
    else none

-- `namespace in (ARCH, CPU)`
unfoldable pub in_snapshot_namespace : Namespace → Bool
in_snapshot_namespace arch = true
in_snapshot_namespace cpu = true
in_snapshot_namespace _ = false

unfoldable pub is_snapshot : Verdict → Bool → Bool
unfolding same_class in_snapshot_namespace
is_snapshot v readable =
    (same_class v.classification emitted_state || same_class v.classification conditional_state)
    && readable
    && in_snapshot_namespace v.namespace

unfoldable pub named_entry :
    Inputs → Text → Rule → Table → Text → RawRecord → Verdict → Access → StateEntry
unfolding provenance_of encoding_of access_path_of override_alias override_of is_snapshot
    source_family source_release get_or_zero get_or_32 profile_encoding_kind access_flags
named_entry inp tid rule table name rec v access =
    let path = access_path_of name inp.access_paths in
    record {
      canonical_name = name;
      source_id = tid ++ (b':' ∷ name);
      architecture = inp.architecture;
      namespace = v.namespace;
      classification = v.classification;
      provenance = provenance_of inp rule table rec;
      width = some 32;
      access = some access;
      encoding = encoding_of rec.address rec.sysm;
      encoding_kind = profile_encoding_kind rule.profile;
      readable = (access_flags rec.access).0;
      writable = (access_flags rec.access).1;
      feature_requirement = v.feature;
      alias_of = override_alias (override_of name inp.overrides);
      reason = v.reason;
      snapshot = is_snapshot v (access_flags rec.access).0;
      derivation = codes "table";
      source_family = source_family inp.document;
      source_release = source_release inp;
      debug_regsel = path.regsel;
      debug_lsb = get_or_zero path.lsb;
      debug_width = get_or_32 path.width;
      component = rule.component;
    }

-- The repeat of a register that an earlier row gave: an alias of its own name.
unfoldable pub repeat_entry : Text → Text → StateEntry → StateEntry → StateEntry
repeat_entry tid name first e = record e {
  classification = alias;
  alias_of = some (record { target = name; bit_offset = 0; bit_width = 32 });
  source_id = tid ++ (b':' ∷ (name ++ codes ":dup"));
  reason = some (codes "Also listed in " ++ first.provenance.table);
}

-- `stats[…[classification]] += 1`
unfoldable pub tally : Classification → Stats → Stats
tally emitted_state s = record s { emitted = s.emitted + 1 }
tally conditional_state s = record s { conditional = s.conditional + 1 }
tally alias s = record s { alias_rows = s.alias_rows + 1 }
tally architecture_defined s = record s { architecture_rows = s.architecture_rows + 1 }
tally explicit_exclusion s = record s { excluded = s.excluded + 1 }
tally non_state_operation s = record s { operation = s.operation + 1 }

unfoldable pub add_reserved : StateEntry → Progress → Progress
add_reserved e p = record p {
  entries = p.entries ++ (e ∷ []);
  stats = record p.stats { excluded = p.stats.excluded + 1 };
}

-- `if key in seen: … continue; seen[key] = entry; …`, with what `seen` has under the key.
unfoldable pub add_at : Text → Text → StateEntry → Option StateEntry → Progress → Progress
unfolding insert repeat_entry tally
add_at tid name e (some first) p = record p {
  entries = p.entries ++ (repeat_entry tid name first e ∷ []);
  stats = record p.stats { alias_rows = p.stats.alias_rows + 1 };
}
add_at tid name e none p = record p {
  entries = p.entries ++ (e ∷ []);
  seen = insert (state_id e) e p.seen;
  stats = tally e.classification p.stats;
}

-- `key = entry.state_id()`
unfoldable pub add_named : Text → Text → StateEntry → Progress → Progress
unfolding lookup add_at
add_named tid name e p = add_at tid name e (lookup (state_id e) p.seen) p

-- A row is reserved if it says so or has no name.
unfoldable pub is_reserved : RawRecord → Bool
unfolding truthy
is_reserved rec = rec.reserved || not (truthy rec.name)

unfoldable pub import_record : Inputs → Text → Rule → Table → RawRecord → Progress → Result Progress
unfolding is_reserved or_else reserved_entry add_reserved classify named_entry add_named
    profile_access
import_record inp tid rule table rec p =
    if is_reserved rec
    then (do
      access ← profile_access rule.profile
      ok (add_reserved (reserved_entry inp tid rule table rec access) p))
    else (do
      let name = or_else rec.name []
      v ← classify inp rule name rec
      access ← profile_access rule.profile
      ok (add_named tid name (named_entry inp tid rule table name rec v access) p))
