-- ===== src/Model/Kinds.antt =====
-- The enumerations of tools/state/model.py. `value` of each is the text that a manifest holds.
use libhw.Base.{
  Bool, Result, Text, codes, err, false, if◌then◌else◌, ok, refl, text_eq, true, value_error, ◌≡◌,
}

pub data Classification : Type 0 where
  emitted_state : Classification
  -- a CPU-overlay row that restates state of the architecture manifest
  architecture_defined : Classification
  alias : Classification
  non_state_operation : Classification
  conditional_state : Classification
  explicit_exclusion : Classification

pub data Namespace : Type 0 where
  arch cpu debug cluster undocumented : Namespace

pub data Access : Type 0 where
  memory_mapped special_reg core_reg sysreg cp15 csr fp_sysreg : Access

unfoldable pub classification_value : Classification → Text
classification_value emitted_state = codes "emitted_state"
classification_value architecture_defined = codes "architecture_defined"
classification_value alias = codes "alias"
classification_value non_state_operation = codes "non_state_operation"
classification_value conditional_state = codes "conditional_state"
classification_value explicit_exclusion = codes "explicit_exclusion"

unfoldable pub namespace_value : Namespace → Text
namespace_value arch = codes "arch"
namespace_value cpu = codes "cpu"
namespace_value debug = codes "debug"
namespace_value cluster = codes "cluster"
namespace_value undocumented = codes "undocumented_discovered"

unfoldable pub access_value : Access → Text
access_value memory_mapped = codes "memory_mapped"
access_value special_reg = codes "special_reg"
access_value core_reg = codes "core_reg"
access_value sysreg = codes "sysreg"
access_value cp15 = codes "cp15"
access_value csr = codes "csr"
access_value fp_sysreg = codes "fp_sysreg"

-- `Classification(s)`: the member with that value, or `ValueError`.
unfoldable pub classification_of : Text → Result Classification
unfolding text_eq
classification_of s =
    if text_eq s (codes "emitted_state")
    then ok emitted_state
    else if text_eq s (codes "architecture_defined")
    then ok architecture_defined
    else if text_eq s (codes "alias")
    then ok alias
    else if text_eq s (codes "non_state_operation")
    then ok non_state_operation
    else if text_eq s (codes "conditional_state")
    then ok conditional_state
    else if text_eq s (codes "explicit_exclusion")
    then ok explicit_exclusion
    else err value_error

unfoldable pub namespace_of : Text → Result Namespace
unfolding text_eq
namespace_of s =
    if text_eq s (codes "arch")
    then ok arch
    else if text_eq s (codes "cpu")
    then ok cpu
    else if text_eq s (codes "debug")
    then ok debug
    else if text_eq s (codes "cluster")
    then ok cluster
    else if text_eq s (codes "undocumented_discovered")
    then ok undocumented
    else err value_error

unfoldable pub access_of : Text → Result Access
unfolding text_eq
access_of s =
    if text_eq s (codes "memory_mapped")
    then ok memory_mapped
    else if text_eq s (codes "special_reg")
    then ok special_reg
    else if text_eq s (codes "core_reg")
    then ok core_reg
    else if text_eq s (codes "sysreg")
    then ok sysreg
    else if text_eq s (codes "cp15")
    then ok cp15
    else if text_eq s (codes "csr")
    then ok csr
    else if text_eq s (codes "fp_sysreg")
    then ok fp_sysreg
    else err value_error

-- `a is b` and `a == b` on members.
unfoldable pub same_class : Classification → Classification → Bool
same_class emitted_state emitted_state = true
same_class architecture_defined architecture_defined = true
same_class alias alias = true
same_class non_state_operation non_state_operation = true
same_class conditional_state conditional_state = true
same_class explicit_exclusion explicit_exclusion = true
same_class _ _ = false

-- Reading a classification back from its value gives the member that was written.
pub classification_of-value :
    (c : Classification) → classification_of (classification_value c) ≡ ok c
unfolding classification_of classification_value
classification_of-value emitted_state = refl
classification_of-value architecture_defined = refl
classification_of-value alias = refl
classification_of-value non_state_operation = refl
classification_of-value conditional_state = refl
classification_of-value explicit_exclusion = refl

pub namespace_of-value : (n : Namespace) → namespace_of (namespace_value n) ≡ ok n
unfolding namespace_of namespace_value
namespace_of-value arch = refl
namespace_of-value cpu = refl
namespace_of-value debug = refl
namespace_of-value cluster = refl
namespace_of-value undocumented = refl
