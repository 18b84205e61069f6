-- ===== src/Bindings/Probe.antt =====
-- utils/python/libhw/cli.py: the command `libhw-probe`. What it prints of a target is left out; the
-- counts that it prints are not.
pub mod Counted
pub mod Missing
pub mod Status
use libhw.Base.{
  Bool, Dict, List, Option, Result, Text, [], count_up, err, hw_connect_error, hw_error,
  hw_flash_error, hw_library_not_found, hw_state_error, if◌then◌else◌, not, ok, some, ℕ, ◌&&◌, ◌++◌,
  ◌+◌, ◌∷◌,
}
use libhw.Bindings.Action.{Action, and_then, fold_action, lift, pure}
use libhw.Bindings.Connection.{
  Hw, close, connect, databases_for, halt, halted, identify, query, run,
}
use libhw.Bindings.Library.{Library}
use libhw.Bindings.Loader.{System, load_library}
use libhw.Bindings.StateDb.{
  CpuFeatures, QueryResult, desc_from_c, is_implemented, is_read_ok, presence_value,
  read_status_value,
}
use libhw.Bindings.Structs.{HwStateDb, HwStateDesc}
use libhw.Bindings.Views.{db_name, db_source, state_count}

-- The counts of one database.
pub record ProbeCounts : Type 0 where
  pub presence : Dict ℕ
  pub reads : Dict ℕ
  pub read_ok_unknown : ℕ

pub record DbReport : Type 0 where
  pub name : Text
  pub source : Text
  pub elements : ℕ
  pub tally : ProbeCounts

-- The arguments of the command.
pub record Arguments : Type 0 where
  pub backend : Text
  pub host : Option Text
  pub port : ℕ
  pub resume : Bool

unfoldable pub nothing_counted : ProbeCounts
nothing_counted = record { presence = []; reads = []; read_ok_unknown = 0 }

module _ (l : Library) where
  unfoldable pub tally_result : QueryResult → ProbeCounts → ProbeCounts
  unfolding presence_value read_status_value is_read_ok is_implemented count_up
  tally_result r t = record {
    presence = count_up (l.hw_presence_name (presence_value r.presence)) t.presence;
    reads = count_up (l.hw_read_status_name (read_status_value r.read)) t.reads;
    read_ok_unknown =
        if is_read_ok r.read && not (is_implemented r.presence)
        then t.read_ok_unknown + 1
        else t.read_ok_unknown;
  }

  -- One element of a database.
  unfoldable pub probe_desc :
      Hw l → CpuFeatures → HwStateDesc → ProbeCounts → Action l.World ProbeCounts
  unfolding desc_from_c query tally_result
  probe_desc hw f c t =
      and_then (lift (desc_from_c c (some c)))
        (λ desc. and_then (query l hw desc (some f)) (λ r. pure (tally_result r t)))

  unfoldable pub probe_db :
      Hw l → CpuFeatures → HwStateDb → List DbReport → Action l.World (List DbReport)
  unfolding fold_action probe_desc nothing_counted db_name db_source state_count
  probe_db hw f db reports =
      and_then (fold_action (probe_desc hw f) db.states nothing_counted) (λ t. pure (
        reports
        ++ (record {
          name = db_name db;
          source = db_source db;
          elements = state_count db;
          tally = t;
        }
            ∷ [])))

  -- `_report_state`
  unfoldable pub report_state : Hw l → CpuFeatures → Action l.World (List DbReport)
  unfolding databases_for fold_action probe_db
  report_state hw f =
      and_then (lift (databases_for l f)) (λ dbs. fold_action (probe_db hw f) dbs [])

  -- `if not hw.halted: hw.halt()`
  unfoldable pub ensure_halted : Hw l → Action l.World (Unit {0})
  unfolding halted halt
  ensure_halted hw = and_then (halted l hw) (λ is_halted. if is_halted then pure tt else halt l hw)

  unfoldable pub run_if : Bool → Hw l → Action l.World (Unit {0})
  unfolding run
  run_if resume hw = if resume then run l hw else pure tt

  -- The body of the `with` statement.
  unfoldable pub probe_body : Arguments → Hw l → Action l.World (List DbReport)
  unfolding ensure_halted identify report_state run_if
  probe_body a hw = and_then (ensure_halted hw) (λ _. and_then (identify l hw) (λ f.
      and_then (report_state hw f) (λ reports. and_then (run_if a.resume hw) (λ _. pure reports))))

  -- `__exit__` closes the connection, whatever the body did.
  unfoldable pub with_connection :
      {A : Type 0} → Result (Hw l) → (Hw l → Action l.World A) → Action l.World A
  unfolding close
  with_connection (err e) body w = (err e, w)
  with_connection (ok hw) body w = let (r, w') = body hw w in (r, (close l hw w').1)

  unfoldable pub session : Arguments → Action l.World (List DbReport)
  unfolding connect with_connection probe_body
  session a w =
      let (hw, w') = connect l a.backend a.host a.port w in with_connection hw (probe_body a) w'

-- The `except` clauses of `main`; the exceptions of the bindings are subclasses of `HwError`.
unfoldable pub caught : {A : Type 0} → Result A → Result ℕ
caught (ok a) = ok 0
caught (err hw_library_not_found) = ok 2
caught (err hw_error) = ok 1
caught (err hw_connect_error) = ok 1
caught (err hw_flash_error) = ok 1
caught (err hw_state_error) = ok 1
caught (err e) = err e

-- `main`: the names of the databases are printed, which loads the library, before the `try` statement.
unfoldable pub probe_main : System → Arguments → Result ℕ
unfolding load_library session caught
probe_main s a = elim (load_library s) [
  | err e ↦ err e
  | ok l ↦ caught (session l.library a l.world).0
]
