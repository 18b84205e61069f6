-- ===== src/Bindings/Library.antt =====
-- The entry points of libhw.so that utils/python/libhw/_ffi.py binds: what the bindings know of the
-- C library. A null context is `none`; an out-parameter is a second result.
use libhw.Base.{List, Option, Text, ℕ}
use libhw.Bindings.Structs.{
  HwCpuFeatures, HwFlashInfo, HwFlashPatchStats, HwStateDb, HwStateDbgReg, HwStateDesc,
  HwStateResult,
}

pub record Library : Type 1 where
  pub Ctx : Type 0
  pub World : Type 0
  pub hw_connect : Text → Option Text → ℕ → World → Option Ctx × World
  pub hw_close : Option Ctx → World → World
  pub hw_read32 : Option Ctx → ℕ → World → ℕ × ℕ × World
  pub hw_write32 : Option Ctx → ℕ → ℕ → World → ℕ × World
  pub hw_read8 : Option Ctx → ℕ → World → ℕ × ℕ × World
  pub hw_write8 : Option Ctx → ℕ → ℕ → World → ℕ × World
  pub hw_board_halted : Option Ctx → World → ℕ × World
  pub hw_board_halt : Option Ctx → World → ℕ × World
  pub hw_board_run : Option Ctx → World → ℕ × World
  pub hw_board_step : Option Ctx → World → ℕ × World
  pub hw_board_reset : Option Ctx → World → ℕ × World
  pub hw_read_reg : Option Ctx → ℕ → World → ℕ × World
  pub hw_write_reg : Option Ctx → ℕ → ℕ → World → World
  pub hw_flash_info : Option Ctx → World → ℕ × HwFlashInfo × World
  pub hw_flash_sector : Option Ctx → ℕ → World → ℕ × ℕ × ℕ × World
  pub hw_flash_read : Option Ctx → ℕ → ℕ → World → ℕ × List ℕ × World
  pub hw_flash_write : Option Ctx → ℕ → List ℕ → World → ℕ × World
  pub hw_flash_erase : Option Ctx → ℕ → ℕ → World → ℕ × World
  pub hw_flash_mass_erase : Option Ctx → World → ℕ × World
  pub hw_flash_verify : Option Ctx → ℕ → List ℕ → World → ℕ × World
  pub hw_flash_update : Option Ctx → ℕ → List ℕ → World → ℕ × World
  pub hw_flash_patch :
      Option Ctx → ℕ → Option (List ℕ) → List ℕ → World → ℕ × HwFlashPatchStats × World
  pub hw_state_db : Text → Option HwStateDb
  pub hw_state_find : HwStateDb → Text → Option HwStateDesc
  pub hw_state_dbgreg : HwStateDb → Text → Option HwStateDbgReg
  pub hw_state_identify : Option Ctx → World → ℕ × HwCpuFeatures × World
  pub hw_state_query :
      Option Ctx → HwStateDesc → Option HwCpuFeatures → World → ℕ × HwStateResult × World
  pub hw_presence_name : ℕ → Text
  pub hw_read_status_name : ℕ → Text
  pub hw_state_databases : List HwStateDb
