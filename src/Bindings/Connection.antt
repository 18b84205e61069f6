-- ===== src/Bindings/Connection.antt =====
-- The class `Hw` of utils/python/libhw/core.py.
use libhw.Base.{
  Bool, List, Option, Result, Text, [], codes, err, false, hw_connect_error, hw_error,
  hw_state_error, if◌then◌else◌, none, ok, or_else, raise_if, some, true, truthy, ℕ, ◌==◌, ◌>>=◌,
  ◌∷◌,
}
use libhw.Bindings.Action.{Action, and_then, lift}
use libhw.Bindings.Structs.{
  HwCpuFeatures, HwStateDb, HwStateDesc, HwStateResult, c_uint, c_uint64, c_uint8,
}
use libhw.Bindings.Library.{Library}
use libhw.Bindings.StateDb.{
  CpuFeatures, QueryResult, StateDesc, bool_of, features_from_c, is_read_ok, presence_at,
  read_status_at, state_db, text_of,
}
use libhw.Bindings.Flash.{checked, read}

-- `_ctx` is `none` once the connection is closed.
pub record Hw (l : Library) : Type 0 where
  pub ctx : Option l.Ctx
  pub backend : Text

-- `closed`
unfoldable pub is_none {ℓ} : {A : Type ℓ} → Option A → Bool
is_none none = true
is_none (some a) = false

-- The host as it is passed on: an empty one is null.
unfoldable pub host_of : Option Text → Option Text
unfolding text_of
host_of h = text_of h

module _ (l : Library) where
  -- `Hw(backend, host, port)`
  unfoldable pub connect : Text → Option Text → ℕ → Action l.World (Hw l)
  unfolding host_of
  connect backend host port w =
      let (ctx, w') = l.hw_connect backend (host_of host) port w in
      (
        elim ctx [
          | none ↦ err hw_connect_error
          | some c ↦ ok (record { ctx = some c; backend = backend })
        ],
        w',
      )

  unfoldable pub closed : Hw l → Bool
  unfolding is_none
  closed hw = is_none hw.ctx

  -- `close`: the new connection and the new world.
  unfoldable pub close_at : Hw l → Option l.Ctx → l.World → Hw l × l.World
  close_at hw none w = (hw, w)
  close_at hw (some c) w = (record hw { ctx = none }, l.hw_close (some c) w)

  unfoldable pub close : Hw l → l.World → Hw l × l.World
  unfolding close_at
  close hw w = close_at hw hw.ctx w

  -- `_check`
  unfoldable pub check : Hw l → Result (Unit {0})
  unfolding closed
  check hw = raise_if (closed hw) hw_error

  -- A method that checks the connection first.
  unfoldable pub guarded : {A : Type 0} → Hw l → Action l.World A → Action l.World A
  unfolding check
  guarded hw m = and_then (lift (check hw)) (λ _. m)

  unfoldable pub read32 : Hw l → ℕ → Action l.World ℕ
  unfolding guarded c_uint
  read32 hw addr = guarded hw (λ w.
      let (rc, v, w') = l.hw_read32 hw.ctx (c_uint addr) w in
      (if rc == 0 then ok v else err hw_error, w'))

  unfoldable pub write32 : Hw l → ℕ → ℕ → Action l.World (Unit {0})
  unfolding guarded c_uint checked
  write32 hw addr value =
      guarded hw (λ w. checked hw_error (l.hw_write32 hw.ctx (c_uint addr) (c_uint value) w))

  unfoldable pub read8 : Hw l → ℕ → Action l.World ℕ
  unfolding guarded c_uint
  read8 hw addr = guarded hw (λ w.
      let (rc, v, w') = l.hw_read8 hw.ctx (c_uint addr) w in
      (if rc == 0 then ok v else err hw_error, w'))

  unfoldable pub write8 : Hw l → ℕ → ℕ → Action l.World (Unit {0})
  unfolding guarded c_uint c_uint8 checked
  write8 hw addr value =
      guarded hw (λ w. checked hw_error (l.hw_write8 hw.ctx (c_uint addr) (c_uint8 value) w))

  unfoldable pub halted : Hw l → Action l.World Bool
  unfolding guarded bool_of
  halted hw = guarded hw (λ w. let (n, w') = l.hw_board_halted hw.ctx w in (ok (bool_of n), w'))

  unfoldable pub halt : Hw l → Action l.World (Unit {0})
  unfolding guarded checked
  halt hw = guarded hw (λ w. checked hw_error (l.hw_board_halt hw.ctx w))

  unfoldable pub run : Hw l → Action l.World (Unit {0})
  unfolding guarded checked
  run hw = guarded hw (λ w. checked hw_error (l.hw_board_run hw.ctx w))

  unfoldable pub step : Hw l → Action l.World (Unit {0})
  unfolding guarded checked
  step hw = guarded hw (λ w. checked hw_error (l.hw_board_step hw.ctx w))

  unfoldable pub reset : Hw l → Action l.World (Unit {0})
  unfolding guarded checked
  reset hw = guarded hw (λ w. checked hw_error (l.hw_board_reset hw.ctx w))

  unfoldable pub read_reg : Hw l → ℕ → Action l.World ℕ
  unfolding guarded
  read_reg hw reg = guarded hw (λ w. let (v, w') = l.hw_read_reg hw.ctx reg w in (ok v, w'))

  unfoldable pub write_reg : Hw l → ℕ → ℕ → Action l.World (Unit {0})
  unfolding guarded c_uint64
  write_reg hw reg value = guarded hw (λ w. (ok tt, l.hw_write_reg hw.ctx reg (c_uint64 value) w))

  unfoldable pub identify : Hw l → Action l.World CpuFeatures
  unfolding guarded features_from_c
  identify hw = guarded hw (λ w.
      let (rc, c, w') = l.hw_state_identify hw.ctx w in
      (if rc == 0 then ok (features_from_c c) else err hw_state_error, w'))

  -- The object made of a query's answer.
  unfoldable pub query_result : HwStateResult → Result QueryResult
  unfolding presence_at read_status_at is_read_ok text_of bool_of
  query_result out = do
    presence ← presence_at out.presence
    read ← read_status_at out.read
    ok (record {
      presence = presence;
      evidence = text_of out.evidence;
      read = read;
      value = if is_read_ok read then some out.value else none;
      value_is_zero = bool_of out.value_is_zero;
    })

  unfoldable pub raw_of : Option CpuFeatures → Option HwCpuFeatures
  raw_of none = none
  raw_of (some f) = some f.raw

  unfoldable pub query_at :
      Hw l → Option HwStateDesc → Option CpuFeatures → Action l.World QueryResult
  unfolding raw_of query_result
  query_at hw none features w = (err hw_state_error, w)
  query_at hw (some c) features w =
      let (rc, out, w') = l.hw_state_query hw.ctx c (raw_of features) w in
      (if rc == 0 then query_result out else err hw_state_error, w')

  unfoldable pub query : Hw l → StateDesc → Option CpuFeatures → Action l.World QueryResult
  unfolding guarded query_at
  query hw desc features = guarded hw (query_at hw desc.ptr features)

  -- `databases_for`
  unfoldable pub databases_for : CpuFeatures → Result (List HwStateDb)
  unfolding truthy or_else state_db
  databases_for features = do
    base ← state_db l (codes "armv7m")
    if truthy features.overlay
        then (do overlay ← state_db l (or_else features.overlay []); ok (base ∷ overlay ∷ []))
        else ok (base ∷ [])
