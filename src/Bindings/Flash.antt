-- ===== src/Bindings/Flash.antt =====
-- The classes `FlashInfo`, `PatchStats` and `Flash` of utils/python/libhw/core.py. The methods of
-- `Flash` pass on the context that the connection holds, which is null once it is closed.
use libhw.Base.{
  Bool, Error, List, Option, Result, [], arith, err, false, hw_flash_error, if◌then◌else◌, length,
  none, not, ok, refl, some, suc, true, value_error, zero, ℕ, ◌+◌, ◌==◌, ◌∷◌, ◌≡◌, ◌≢◌,
}
use libhw.Bindings.Action.{Action}
use libhw.Bindings.Structs.{HwFlashInfo, HwFlashPatchStats, c_uint}
use libhw.Bindings.Library.{Library}

pub record FlashInfo : Type 0 where
  pub base : ℕ
  pub size : ℕ
  pub page_size : ℕ
  pub write_align : ℕ

-- `FlashInfo.end`
unfoldable pub end : FlashInfo → ℕ
end i = i.base + i.size

pub record PatchStats : Type 0 where
  pub sectors_total : ℕ
  pub sectors_changed : ℕ
  pub sectors_erased : ℕ
  pub bytes_written : ℕ

unfoldable pub info_of : HwFlashInfo → FlashInfo
info_of c = record {
  base = c.base;
  size = c.size;
  page_size = c.page_size;
  write_align = c.write_align;
}

unfoldable pub stats_of : HwFlashPatchStats → PatchStats
stats_of c = record {
  sectors_total = c.sectors_total;
  sectors_changed = c.sectors_changed;
  sectors_erased = c.sectors_erased;
  bytes_written = c.bytes_written;
}

-- A structure that nothing has been written to.
abbrev pub no_stats : HwFlashPatchStats
no_stats = record { sectors_total = 0; sectors_changed = 0; sectors_erased = 0; bytes_written = 0 }

-- A call that only has a status: nothing is returned, or `e` is raised if the status is not 0.
unfoldable pub checked : {W : Type 0} → Error → ℕ × W → Result (Unit {0}) × W
checked e (rc, w) = (if rc == 0 then ok tt else err e, w)

module _ (l : Library) (ctx : Option l.Ctx) where
  unfoldable pub info : Action l.World FlashInfo
  unfolding info_of
  info w =
      let (rc, c, w') = l.hw_flash_info ctx w in
      (if rc == 0 then ok (info_of c) else err hw_flash_error, w')

  unfoldable pub sector : ℕ → Action l.World (ℕ × ℕ)
  unfolding c_uint
  sector addr w =
      let (rc, base, size, w') = l.hw_flash_sector ctx (c_uint addr) w in
      (if rc == 0 then ok (base, size) else err hw_flash_error, w')

  unfoldable pub read : ℕ → ℕ → Action l.World (List ℕ)
  unfolding c_uint
  read addr zero w = (ok [], w)
  read addr (suc n) w =
      let (rc, buf, w') = l.hw_flash_read ctx (c_uint addr) (suc n) w in
      (if rc == 0 then ok buf else err hw_flash_error, w')

  unfoldable pub write : ℕ → List ℕ → Action l.World (Unit {0})
  unfolding c_uint checked
  write addr [] w = (ok tt, w)
  write addr (b ∷ bs) w = checked hw_flash_error (l.hw_flash_write ctx (c_uint addr) (b ∷ bs) w)

  unfoldable pub erase : ℕ → ℕ → Action l.World (Unit {0})
  unfolding c_uint checked
  erase addr zero w = (ok tt, w)
  erase addr (suc n) w = checked hw_flash_error (l.hw_flash_erase ctx (c_uint addr) (suc n) w)

  unfoldable pub mass_erase : Action l.World (Unit {0})
  unfolding checked
  mass_erase w = checked hw_flash_error (l.hw_flash_mass_erase ctx w)

  unfoldable pub verify : ℕ → List ℕ → Action l.World Bool
  unfolding c_uint
  verify addr [] w = (ok true, w)
  verify addr (b ∷ bs) w =
      let (rc, w') = l.hw_flash_verify ctx (c_uint addr) (b ∷ bs) w in (ok (rc == 0), w')

  unfoldable pub update : ℕ → List ℕ → Action l.World (Unit {0})
  unfolding c_uint checked
  update addr [] w = (ok tt, w)
  update addr (b ∷ bs) w = checked hw_flash_error (l.hw_flash_update ctx (c_uint addr) (b ∷ bs) w)

  -- `old is not None and len(old) != len(new)`
  unfoldable pub sizes_differ : Option (List ℕ) → List ℕ → Bool
  sizes_differ none new = false
  sizes_differ (some old) new = not (length old == length new)

  unfoldable pub patch_bytes : ℕ → Option (List ℕ) → List ℕ → Action l.World PatchStats
  unfolding c_uint stats_of
  patch_bytes addr old [] w = (ok (stats_of no_stats), w)
  patch_bytes addr old (b ∷ bs) w =
      let (rc, stats, w') = l.hw_flash_patch ctx (c_uint addr) old (b ∷ bs) w in
      (if rc == 0 then ok (stats_of stats) else err hw_flash_error, w')

  unfoldable pub patch : ℕ → Option (List ℕ) → List ℕ → Action l.World PatchStats
  unfolding sizes_differ patch_bytes
  patch addr old new w =
      if sizes_differ old new then (err value_error, w) else patch_bytes addr old new w

  -- An empty range touches no target: each call returns at once, in the same world.
  pub empty_calls :
      (addr : ℕ) (w : l.World)
      → (read addr 0 w ≡ (ok [], w))
        × (write addr [] w ≡ (ok tt, w))
        × (erase addr 0 w ≡ (ok tt, w))
        × (verify addr [] w ≡ (ok true, w))
        × (update addr [] w ≡ (ok tt, w))
        × (patch addr none [] w ≡ (ok (stats_of no_stats), w))
  unfolding read write erase verify update patch
  empty_calls addr w = (refl, refl, refl, refl, refl, refl)

  -- Images of different sizes never reach the library: the call raises in the same world.
  pub patch-sizes :
      (addr : ℕ) (old new : List ℕ) (w : l.World)
      → length old ≢ length new
      → patch addr (some old) new w ≡ (err value_error, w)
  unfolding patch
  patch-sizes addr old new w h = rw (differ (length old) (length new) h) refl
    where
      differ : (a b : ℕ) → a ≢ b → not (a == b) ≡ true
      differ a b h = ground arith
