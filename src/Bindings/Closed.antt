-- ===== src/Bindings/Closed.antt =====
-- A connection after `close`.
use libhw.Base.{Option, err, hw_error, none, refl, some, true, ℕ, ◌≡◌}
use libhw.Bindings.Action.{Action}
use libhw.Bindings.Connection.{
  Hw, check, close, close_at, closed, guarded, halt, halted, identify, is_none, query, read32,
  read8, read_reg, reset, run, step, write32, write8, write_reg,
}
use libhw.Bindings.Library.{Library}
use libhw.Bindings.Snapshot.{snapshot}
use libhw.Bindings.StateDb.{CpuFeatures, StateDesc}

module _ (l : Library) where
  -- The methods that begin with `_check` raise, and the target is left as it is. The description of a
  -- database, the list of databases and the methods of `hw.flash` have no such check.
  abbrev pub Refuses : Hw l → Type 0
  Refuses hw =
      (w : l.World) (a v : ℕ) (d : StateDesc) (f : Option CpuFeatures)
      → (read32 l hw a w ≡ (err hw_error, w))
        × (write32 l hw a v w ≡ (err hw_error, w))
        × (read8 l hw a w ≡ (err hw_error, w))
        × (write8 l hw a v w ≡ (err hw_error, w))
        × (halted l hw w ≡ (err hw_error, w))
        × (halt l hw w ≡ (err hw_error, w))
        × (run l hw w ≡ (err hw_error, w))
        × (step l hw w ≡ (err hw_error, w))
        × (reset l hw w ≡ (err hw_error, w))
        × (read_reg l hw a w ≡ (err hw_error, w))
        × (write_reg l hw a v w ≡ (err hw_error, w))
        × (identify l hw w ≡ (err hw_error, w))
        × (query l hw d f w ≡ (err hw_error, w))
        × (snapshot l hw f w ≡ (err hw_error, w))

  guarded-closed :
      {A : Type 0} (hw : Hw l) (m : Action l.World A) (w : l.World)
      → closed l hw ≡ true
      → guarded l hw m w ≡ (err hw_error, w)
  unfolding guarded check
  guarded-closed hw m w h = rw h refl

  closed-Refuses : (hw : Hw l) → closed l hw ≡ true → Refuses hw
  unfolding read32 write32 read8 write8 halted halt run step reset read_reg write_reg identify query
      snapshot
  closed-Refuses hw h w a v d f = (
    guarded-closed hw _ w h,
    guarded-closed hw _ w h,
    guarded-closed hw _ w h,
    guarded-closed hw _ w h,
    guarded-closed hw _ w h,
    guarded-closed hw _ w h,
    guarded-closed hw _ w h,
    guarded-closed hw _ w h,
    guarded-closed hw _ w h,
    guarded-closed hw _ w h,
    guarded-closed hw _ w h,
    guarded-closed hw _ w h,
    guarded-closed hw _ w h,
    guarded-closed hw _ w h,
  )

  close_at-closed :
      (hw : Hw l) (o : Option l.Ctx) (w : l.World)
      → hw.ctx ≡ o
      → closed l (close_at l hw o w).0 ≡ true
  unfolding close_at closed is_none
  close_at-closed hw none w e = rw e refl
  close_at-closed hw (some c) w e = refl

  close_at_none :
      (hw : Hw l) (o : Option l.Ctx) (w : l.World) → is_none o ≡ true → close_at l hw o w ≡ (hw, w)
  unfolding close_at is_none
  close_at_none hw none w e = refl
  close_at_none hw (some c) w e = cc e

  -- After `close` these methods of the connection raise `HwError` and leave the target as it is: the reads
  -- and writes of words, bytes and registers, `halted`, `halt`, `run`, `step`, `reset`, `identify`, `query`
  -- and `snapshot`. A second `close` changes nothing.
  pub close-Refuses :
      (hw : Hw l) (w : l.World)
      → Refuses (close l hw w).0
        × ((u : l.World) → close l (close l hw w).0 u ≡ ((close l hw w).0, u))
  unfolding close closed
  close-Refuses hw w =
      let shut = close_at-closed hw hw.ctx w refl in
      let hw' = (close_at l hw hw.ctx w).0 in
      (closed-Refuses hw' shut, λ u. close_at_none hw' hw'.ctx u shut)
