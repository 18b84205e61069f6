-- ===== src/Bindings/Snapshot/Sound.antt =====
-- What a snapshot holds.
use libhw.Base.{Dict, Option, Text, lookup, ok, some, true, ℕ, ◌≡◌}
use libhw.Bindings.Structs.{HwStateDb}
use libhw.Bindings.Library.{Library}
use libhw.Bindings.StateDb.{CpuFeatures, QueryResult, StateDesc, is_implemented, read_ok}
use libhw.Bindings.Flash.{read}
use libhw.Bindings.Connection.{Hw, query}
use libhw.Bindings.Snapshot.{snapshot, snapshot_key}

module _ (l : Library) (hw : Hw l) where
  -- The value comes from a query of a snapshot element that succeeded, found the element implemented,
  -- and read it.
  abbrev pub Taken : Text → Option ℕ → Type 0
  Taken key value =
      (feats : CpuFeatures) × (db : HwStateDb) × (desc : StateDesc) × (r : QueryResult)
      × (before : l.World) × (key ≡ snapshot_key l db desc)
      × (desc.snapshot ≡ true)
      × ((query l hw desc (some feats) before).0 ≡ ok r)
      × (r.read ≡ read_ok)
      × (is_implemented r.presence ≡ true)
      × (value ≡ r.value)

  abbrev pub AllTaken : Dict (Option ℕ) → Type 0
  AllTaken out = (key : Text) (value : Option ℕ) → lookup key out ≡ some value → Taken key value
