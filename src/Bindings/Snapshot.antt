-- ===== src/Bindings/Snapshot.antt =====
-- `Hw.snapshot` of utils/python/libhw/core.py.
pub mod Sound
use libhw.Base.{
  Dict, Option, Text, [], if◌then◌else◌, insert, none, or_else, some, ℕ, ◌&&◌, ◌++◌, ◌∷◌,
}
use libhw.Bindings.Action.{Action, and_then, fold_action, lift, pure}
use libhw.Bindings.Structs.{HwStateDb, HwStateDesc}
use libhw.Bindings.Library.{Library}
use libhw.Bindings.StateDb.{
  CpuFeatures, QueryResult, StateDesc, desc_from_c, is_implemented, is_read_ok, text_of,
}
use libhw.Bindings.Flash.{read}
use libhw.Bindings.Connection.{Hw, databases_for, guarded, identify, query}

module _ (l : Library) where
  -- `f"{db.name}:{desc.name}"`
  unfoldable pub snapshot_key : HwStateDb → StateDesc → Text
  unfolding text_of or_else
  snapshot_key db desc = or_else (text_of db.name) [] ++ (b':' ∷ desc.name)

  -- `if r.read == ReadStatus.OK and r.is_implemented: out[…] = r.value`
  unfoldable pub take_result : Text → QueryResult → Dict (Option ℕ) → Dict (Option ℕ)
  unfolding is_read_ok is_implemented insert
  take_result key r out =
      if is_read_ok r.read && is_implemented r.presence then insert key r.value out else out

  unfoldable pub visit_desc :
      Hw l
      → CpuFeatures
      → HwStateDb
      → StateDesc
      → Dict (Option ℕ)
      → Action l.World (Dict (Option ℕ))
  unfolding query snapshot_key take_result
  visit_desc hw feats db desc out =
      if desc.snapshot
      then and_then (query l hw desc (some feats))
          (λ r. pure (take_result (snapshot_key db desc) r out))
      else pure out

  -- The iterator makes one object at a time, between the queries.
  unfoldable pub visit_raw :
      Hw l
      → CpuFeatures
      → HwStateDb
      → HwStateDesc
      → Dict (Option ℕ)
      → Action l.World (Dict (Option ℕ))
  unfolding desc_from_c visit_desc
  visit_raw hw feats db c out =
      and_then (lift (desc_from_c c (some c))) (λ desc. visit_desc hw feats db desc out)

  unfoldable pub visit_db :
      Hw l → CpuFeatures → HwStateDb → Dict (Option ℕ) → Action l.World (Dict (Option ℕ))
  unfolding visit_raw fold_action
  visit_db hw feats db out = fold_action (visit_raw hw feats db) db.states out

  unfoldable pub features_for : Hw l → Option CpuFeatures → Action l.World CpuFeatures
  unfolding identify
  features_for hw none = identify l hw
  features_for hw (some f) = pure f

  unfoldable pub snapshot : Hw l → Option CpuFeatures → Action l.World (Dict (Option ℕ))
  unfolding guarded features_for databases_for visit_db fold_action
  snapshot hw features = guarded l hw (
      and_then (features_for hw features) λ feats.
        and_then (lift (databases_for l feats)) λ dbs. fold_action (visit_db hw feats) dbs [])
