-- ===== src/Bindings/StateDb.antt =====
-- utils/python/libhw/state.py: the generated state database as Python objects.
use libhw.Base.{
  Bool, List, Option, Result, Text, [], codes, err, false, hw_state_error, if◌then◌else◌, keep,
  none, not, ok, or_else, require, some, true, value_error, ℕ, ◌*◌, ◌++◌, ◌+◌, ◌==◌, ◌>>=◌, ◌∷◌,
}
use libhw.Base.Numeral.{decimal}
use libhw.Bindings.Structs.{HwCpuFeatures, HwStateDb, HwStateDesc}
use libhw.Bindings.Library.{Library}

pub data Namespace : Type 0 where
  arch cpu debug cluster undocumented_discovered : Namespace

pub data Access : Type 0 where
  memory_mapped special_reg core_reg sysreg cp15 csr fp_sysreg : Access

pub data EncodingKind : Type 0 where
  absolute offset sysm core fp_sysreg : EncodingKind

pub data Presence : Type 0 where
  unknown architectural config_confirmed config_denied discovered discovery_absent : Presence

pub data ReadStatus : Type 0 where
  not_attempted read_ok backend_unsupported unsafe access_denied failed : ReadStatus

-- `Namespace(n)`: the member with that value, or `ValueError`; so for the enumerations below.
unfoldable pub namespace_at : ℕ → Result Namespace
namespace_at n =
    if n == 0
    then ok arch
    else if n == 1
    then ok cpu
    else if n == 2
    then ok debug
    else if n == 3
    then ok cluster
    else if n == 4
    then ok undocumented_discovered
    else err value_error

unfoldable pub access_at : ℕ → Result Access
access_at n =
    if n == 0
    then ok memory_mapped
    else if n == 1
    then ok special_reg
    else if n == 2
    then ok core_reg
    else if n == 3
    then ok sysreg
    else if n == 4
    then ok cp15
    else if n == 5
    then ok csr
    else if n == 6
    then ok Access.fp_sysreg
    else err value_error

unfoldable pub encoding_kind_at : ℕ → Result EncodingKind
encoding_kind_at n =
    if n == 0
    then ok absolute
    else if n == 1
    then ok offset
    else if n == 2
    then ok sysm
    else if n == 3
    then ok core
    else if n == 4
    then ok EncodingKind.fp_sysreg
    else err value_error

unfoldable pub presence_at : ℕ → Result Presence
presence_at n =
    if n == 0
    then ok unknown
    else if n == 1
    then ok architectural
    else if n == 2
    then ok config_confirmed
    else if n == 3
    then ok config_denied
    else if n == 4
    then ok discovered
    else if n == 5
    then ok discovery_absent
    else err value_error

unfoldable pub read_status_at : ℕ → Result ReadStatus
read_status_at n =
    if n == 0
    then ok not_attempted
    else if n == 1
    then ok read_ok
    else if n == 2
    then ok backend_unsupported
    else if n == 3
    then ok unsafe
    else if n == 4
    then ok access_denied
    else if n == 5
    then ok failed
    else err value_error

-- `int(presence)`
unfoldable pub presence_value : Presence → ℕ
presence_value unknown = 0
presence_value architectural = 1
presence_value config_confirmed = 2
presence_value config_denied = 3
presence_value discovered = 4
presence_value discovery_absent = 5

unfoldable pub read_status_value : ReadStatus → ℕ
read_status_value not_attempted = 0
read_status_value read_ok = 1
read_status_value backend_unsupported = 2
read_status_value unsafe = 3
read_status_value access_denied = 4
read_status_value failed = 5

-- `Presence.is_implemented`: only positive evidence counts.
unfoldable pub is_implemented : Presence → Bool
is_implemented architectural = true
is_implemented config_confirmed = true
is_implemented discovered = true
is_implemented _ = false

unfoldable pub is_read_ok : ReadStatus → Bool
is_read_ok read_ok = true
is_read_ok _ = false

-- `_s`: a null or empty string is `None`.
unfoldable pub text_of : Option Text → Option Text
text_of none = none
text_of (some []) = none
text_of (some (c ∷ s)) = some (c ∷ s)

-- `bool(n)`
unfoldable pub bool_of : ℕ → Bool
bool_of n = not (n == 0)

-- `ptr` is the descriptor that the object was made of, if it came from a database.
pub record StateDesc : Type 0 where
  pub name : Text
  pub namespace : Namespace
  pub access : Access
  pub encoding : Option Text
  pub encoding_kind : EncodingKind
  pub width : ℕ
  pub readable : Bool
  pub writable : Bool
  pub snapshot : Bool
  pub feature : Option Text
  pub component : Option Text
  pub ptr : Option HwStateDesc

-- `StateDesc._from_c`
unfoldable pub desc_from_c : HwStateDesc → Option HwStateDesc → Result StateDesc
unfolding text_of or_else namespace_at access_at encoding_kind_at bool_of
desc_from_c c ptr = do
  ns ← namespace_at c.ns
  acc ← access_at c.access
  kind ← encoding_kind_at c.enc_kind
  ok (record {
    name = or_else (text_of c.name) [];
    namespace = ns;
    access = acc;
    encoding = text_of c.encoding;
    encoding_kind = kind;
    width = c.width;
    readable = bool_of c.readable;
    writable = bool_of c.writable;
    snapshot = bool_of c.snapshot;
    feature = text_of c.feature;
    component = text_of c.component;
    ptr = ptr;
  })

pub record CpuFeatures : Type 0 where
  pub cpuid : ℕ
  pub partno : ℕ
  pub variant : ℕ
  pub revision : ℕ
  pub cpu_name : Option Text
  pub overlay : Option Text
  pub overlay_revision : Option Text
  pub revision_matches : Bool
  pub fp_extension : Bool
  pub mpu : Bool
  pub mpu_regions : ℕ
  pub dwt_numcomp : ℕ
  pub nvic_intlinesnum : ℕ
  pub raw : HwCpuFeatures

-- `CpuFeatures._from_c`
unfoldable pub features_from_c : HwCpuFeatures → CpuFeatures
unfolding text_of bool_of
features_from_c c = record {
  cpuid = c.cpuid;
  partno = c.partno;
  variant = c.variant;
  revision = c.revision;
  cpu_name = text_of c.cpu_name;
  overlay = text_of c.overlay;
  overlay_revision = text_of c.overlay_revision;
  revision_matches = bool_of c.revision_matches;
  fp_extension = bool_of c.fp_extension;
  mpu = bool_of c.mpu;
  mpu_regions = c.mpu_regions;
  dwt_numcomp = c.dwt_numcomp;
  nvic_intlinesnum = c.nvic_intlinesnum;
  raw = c;
}

-- `CpuFeatures.part_revision`
unfoldable pub part_revision : CpuFeatures → Text
unfolding decimal
part_revision f = codes "r" ++ (decimal f.variant ++ (codes "p" ++ decimal f.revision))

-- `CpuFeatures.interrupt_lines`
unfoldable pub interrupt_lines : CpuFeatures → ℕ
interrupt_lines f = (f.nvic_intlinesnum + 1) * 32

pub record QueryResult : Type 0 where
  pub presence : Presence
  pub evidence : Option Text
  pub read : ReadStatus
  pub value : Option ℕ
  pub value_is_zero : Bool

-- `StateDb.__iter__`, all of it: a descriptor that has no Python object raises there.
unfoldable pub all_states : List HwStateDesc → Result (List StateDesc)
unfolding desc_from_c
all_states [] = ok []
all_states (c ∷ cs) = do d ← desc_from_c c (some c); ds ← all_states cs; ok (d ∷ ds)

-- `StateDb.snapshot_state`
unfoldable pub snapshot_state : HwStateDb → Result (List StateDesc)
unfolding all_states
snapshot_state db = do ds ← all_states db.states; ok (keep (λ d. d.snapshot) ds)

module _ (l : Library) where
  -- `state_db`
  unfoldable pub state_db : Text → Result HwStateDb
  state_db name = require (l.hw_state_db name) hw_state_error

  -- `StateDb.find`
  unfoldable pub find : HwStateDb → Text → Result (Option StateDesc)
  unfolding desc_from_c
  find db name = elim (l.hw_state_find db name) [
    | none ↦ ok none
    | some c ↦ desc_from_c c (some c) >>= λ d. ok (some d)
  ]
