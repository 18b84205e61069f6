-- ===== src/Examples/Targets.antt =====
-- A connection to a small library that always succeeds, and what the theorems say of it.
use libhw.Base.{[], codes, none, some, ℕ, ◌+◌, ◌∷◌, ◌≡◌}
use libhw.Bindings.Closed.{Refuses, close-Refuses}
use libhw.Bindings.Connection.{Hw, close}
use libhw.Bindings.Library.{Library}
use libhw.Bindings.Snapshot.{snapshot}
use libhw.Bindings.Structs.{HwStateDesc}

abbrev desc : HwStateDesc
desc = record {
  name = some (codes "CPUID");
  ns = 0;
  access = 0;
  encoding = some (codes "0xE000ED00");
  enc_kind = 0;
  width = 32;
  readable = 1;
  writable = 0;
  snapshot = 1;
  feature = none;
  component = none;
}

-- The world counts the calls that reach the target.
abbrev pub mock : Library
mock = record {
  Ctx = Unit {0};
  World = ℕ;
  hw_connect = λ b h p w. (some tt, w + 1);
  hw_close = λ c w. w + 1;
  hw_read32 = λ c a w. (0, 7, w + 1);
  hw_write32 = λ c a v w. (0, w + 1);
  hw_read8 = λ c a w. (0, 7, w + 1);
  hw_write8 = λ c a v w. (0, w + 1);
  hw_board_halted = λ c w. (1, w);
  hw_board_halt = λ c w. (0, w + 1);
  hw_board_run = λ c w. (0, w + 1);
  hw_board_step = λ c w. (0, w + 1);
  hw_board_reset = λ c w. (0, w + 1);
  hw_read_reg = λ c r w. (7, w + 1);
  hw_write_reg = λ c r v w. w + 1;
  hw_flash_info = λ c w. (0, record { base = 0; size = 16; page_size = 4; write_align = 1 }, w + 1);
  hw_flash_sector = λ c a w. (0, 0, 4, w + 1);
  hw_flash_read = λ c a n w. (0, [], w + 1);
  hw_flash_write = λ c a b w. (0, w + 1);
  hw_flash_erase = λ c a n w. (0, w + 1);
  hw_flash_mass_erase = λ c w. (0, w + 1);
  hw_flash_verify = λ c a b w. (0, w + 1);
  hw_flash_update = λ c a b w. (0, w + 1);
  hw_flash_patch = λ c a o n w. (
    0,
    record { sectors_total = 1; sectors_changed = 1; sectors_erased = 0; bytes_written = 1 },
    w + 1,
  );
  hw_state_db = λ n. some (record {
    name = some (codes "armv7m");
    source = none;
    states = desc ∷ [];
    aliases = [];
    operations = [];
    dbgregs = [];
    components = [];
  });
  hw_state_find = λ d n. some desc;
  hw_state_dbgreg = λ d n. none;
  hw_state_identify = λ c w. (
    0,
    record {
      cpuid = 0;
      partno = 0;
      variant = 0;
      revision = 0;
      overlay_revision = none;
      revision_matches = 0;
      cpu_name = none;
      overlay = none;
      fp_extension = 0;
      mpu = 0;
      mpu_regions = 0;
      dwt_numcomp = 0;
      nvic_intlinesnum = 0;
    },
    w + 1,
  );
  hw_state_query = λ c d f w.
      (0, record { presence = 1; evidence = none; read = 1; value = 7; value_is_zero = 0 }, w + 1);
  hw_presence_name = λ n. [];
  hw_read_status_name = λ n. [];
  hw_state_databases = [];
}

abbrev pub connection : Hw mock
connection = record { ctx = some tt; backend = codes "mock" }

close-Refuses_example :
    Refuses mock (close mock connection 0).0
    × ((u : ℕ) → close mock (close mock connection 0).0 u ≡ ((close mock connection 0).0, u))
close-Refuses_example = close-Refuses mock connection 0
