-- ===== src/Bindings/Structs.antt =====
-- The C structures of utils/python/libhw/_ffi.py and the integer conversions of `ctypes`. A `char *`
-- is `none` where it is null. A status of 0 is success.
use libhw.Base.{List, Option, Text, ℕ, ◌%◌, ◌^◌}

unfoldable pub c_uint : ℕ → ℕ
c_uint n = n % 2 ^ 32

unfoldable pub c_uint8 : ℕ → ℕ
c_uint8 n = n % 2 ^ 8

unfoldable pub c_uint64 : ℕ → ℕ
c_uint64 n = n % 2 ^ 64

pub record HwFlashInfo : Type 0 where
  pub base : ℕ
  pub size : ℕ
  pub page_size : ℕ
  pub write_align : ℕ

pub record HwFlashPatchStats : Type 0 where
  pub sectors_total : ℕ
  pub sectors_changed : ℕ
  pub sectors_erased : ℕ
  pub bytes_written : ℕ

pub record HwStateDesc : Type 0 where
  pub name : Option Text
  pub ns : ℕ
  pub access : ℕ
  pub encoding : Option Text
  pub enc_kind : ℕ
  pub width : ℕ
  pub readable : ℕ
  pub writable : ℕ
  pub snapshot : ℕ
  pub feature : Option Text
  pub component : Option Text

pub record HwStateAlias : Type 0 where
  pub name : Option Text
  pub target : Option Text
  pub bit_offset : ℕ
  pub bit_width : ℕ

pub record HwStateOperation : Type 0 where
  pub name : Option Text
  pub encoding : Option Text
  pub reason : Option Text

pub record HwStateComponent : Type 0 where
  pub name : Option Text
  pub base : ℕ

pub record HwStateDbgReg : Type 0 where
  pub name : Option Text
  pub regsel : ℕ
  pub lsb : ℕ
  pub width : ℕ

pub record HwCpuFeatures : Type 0 where
  pub cpuid : ℕ
  pub partno : ℕ
  pub variant : ℕ
  pub revision : ℕ
  pub overlay_revision : Option Text
  pub revision_matches : ℕ
  pub cpu_name : Option Text
  pub overlay : Option Text
  pub fp_extension : ℕ
  pub mpu : ℕ
  pub mpu_regions : ℕ
  pub dwt_numcomp : ℕ
  pub nvic_intlinesnum : ℕ

pub record HwStateResult : Type 0 where
  pub presence : ℕ
  pub evidence : Option Text
  pub read : ℕ
  pub value : ℕ
  pub value_is_zero : ℕ

-- The arrays of a database, each with its count, as lists.
pub record HwStateDb : Type 0 where
  pub name : Option Text
  pub source : Option Text
  pub states : List HwStateDesc
  pub aliases : List HwStateAlias
  pub operations : List HwStateOperation
  pub dbgregs : List HwStateDbgReg
  pub components : List HwStateComponent
