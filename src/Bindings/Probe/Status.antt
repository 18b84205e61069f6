-- ===== src/Bindings/Probe/Status.antt =====
-- The status of the command.
use libhw.Base.{
  Bool, List, Option, Result, Text, [], arith, attribute_error, err, false, file_not_found,
  hw_connect_error, hw_error, hw_flash_error, hw_library_not_found, hw_state_error, if◌then◌else◌,
  key_error, none, ok, ok-injective, refl, some, source_error, true, type_error, value_error, ℕ,
  ◌<◌, ◌≢◌,
}
use libhw.Bindings.Action.{fold_action, lift, pure}
use libhw.Bindings.Connection.{
  Hw, connect, databases_for, halt, halted, host_of, identify, query, query_at, run,
}
use libhw.Bindings.Flash.{checked}
use libhw.Bindings.Library.{Library}
use libhw.Bindings.Loader.{Loaded, System, load_library}
use libhw.Bindings.Probe.{
  Arguments, DbReport, ProbeCounts, caught, ensure_halted, nothing_counted, probe_body, probe_db,
  probe_desc, probe_main, report_state, run_if, session, with_connection,
}
use libhw.Bindings.Probe.Missing.{
  HasLibrary, bind-HasLibrary, databases_for-HasLibrary, desc_from_c-HasLibrary,
  fold_action-HasLibrary, guarded-HasLibrary, if-HasLibrary, query_at-HasLibrary,
}
use libhw.Bindings.StateDb.{CpuFeatures, StateDesc, desc_from_c}
use libhw.Bindings.Structs.{HwStateDb, HwStateDesc}

module _ (l : Library) where
  checked-HasLibrary : (r : ℕ × l.World) → HasLibrary (checked hw_error r).0
  unfolding checked
  checked-HasLibrary (rc, w) = search if-HasLibrary

  halted-HasLibrary : (hw : Hw l) (w : l.World) → HasLibrary (halted l hw w).0
  unfolding halted
  halted-HasLibrary hw w = guarded-HasLibrary l hw _ w (λ u. tt)

  halt-HasLibrary : (hw : Hw l) (w : l.World) → HasLibrary (halt l hw w).0
  unfolding halt
  halt-HasLibrary hw w =
      guarded-HasLibrary l hw _ w (λ u. checked-HasLibrary (l.hw_board_halt hw.ctx u))

  run-HasLibrary : (hw : Hw l) (w : l.World) → HasLibrary (run l hw w).0
  unfolding run
  run-HasLibrary hw w =
      guarded-HasLibrary l hw _ w (λ u. checked-HasLibrary (l.hw_board_run hw.ctx u))

  identify-HasLibrary : (hw : Hw l) (w : l.World) → HasLibrary (identify l hw w).0
  unfolding identify
  identify-HasLibrary hw w = guarded-HasLibrary l hw _ w (λ u. search (if-HasLibrary, tt))

  query-HasLibrary :
      (hw : Hw l) (d : StateDesc) (f : Option CpuFeatures) (w : l.World)
      → HasLibrary (query l hw d f w).0
  unfolding query
  query-HasLibrary hw d f w =
      guarded-HasLibrary l hw (query_at l hw d.ptr f) w (query_at-HasLibrary l hw d.ptr f)

  connect-HasLibrary :
      (backend : Text) (host : Option Text) (port : ℕ) (w : l.World)
      → HasLibrary (connect l backend host port w).0
  unfolding connect
  connect-HasLibrary backend host port w = opened (l.hw_connect backend (host_of host) port w).0
    where
      opened :
          (o : Option l.Ctx)
          → HasLibrary {A = Hw l} (elim o [
            | none ↦ err hw_connect_error
            | some c ↦ ok (record { ctx = some c; backend = backend })
          ])
      opened none = refl
      opened (some c) = tt

  ensure_halted-HasLibrary : (hw : Hw l) (w : l.World) → HasLibrary (ensure_halted l hw w).0
  unfolding ensure_halted
  ensure_halted-HasLibrary hw w = bind-HasLibrary (halted l hw) _ w (halted-HasLibrary hw w) stop
    where
      stop : (b : Bool) (u : l.World) → HasLibrary ((if b then pure tt else halt l hw) u).0
      stop true u = tt
      stop false u = halt-HasLibrary hw u

  run_if-HasLibrary : (b : Bool) (hw : Hw l) (w : l.World) → HasLibrary (run_if l b hw w).0
  unfolding run_if
  run_if-HasLibrary true hw w = run-HasLibrary hw w
  run_if-HasLibrary false hw w = tt

  probe_desc-HasLibrary :
      (hw : Hw l) (f : CpuFeatures) (c : HwStateDesc) (t : ProbeCounts) (w : l.World)
      → HasLibrary (probe_desc l hw f c t w).0
  unfolding probe_desc
  probe_desc-HasLibrary hw f c t w =
      bind-HasLibrary (lift (desc_from_c c (some c))) _ w (desc_from_c-HasLibrary c (some c))
        (λ desc u.
          bind-HasLibrary (query l hw desc (some f)) _ u (query-HasLibrary hw desc (some f) u)
            (λ r x. tt))

  probe_db-HasLibrary :
      (hw : Hw l) (f : CpuFeatures) (db : HwStateDb) (reports : List DbReport) (w : l.World)
      → HasLibrary (probe_db l hw f db reports w).0
  unfolding probe_db
  probe_db-HasLibrary hw f db reports w =
      bind-HasLibrary (fold_action (probe_desc l hw f) db.states nothing_counted) _ w
        (fold_action-HasLibrary (probe_desc l hw f) db.states nothing_counted w
          (probe_desc-HasLibrary hw f))
        (λ t u. tt)

  probe_body-HasLibrary :
      (a : Arguments) (hw : Hw l) (w : l.World) → HasLibrary (probe_body l a hw w).0
  unfolding probe_body report_state
  probe_body-HasLibrary a hw w =
      bind-HasLibrary (ensure_halted l hw) _ w (ensure_halted-HasLibrary hw w) (λ _ u.
        bind-HasLibrary (identify l hw) _ u (identify-HasLibrary hw u) (λ f x.
          bind-HasLibrary (report_state l hw f) _ x
            (bind-HasLibrary (lift (databases_for l f)) _ x (databases_for-HasLibrary l f) (λ dbs y.
              fold_action-HasLibrary (probe_db l hw f) dbs [] y (probe_db-HasLibrary hw f)))
            (λ reports y.
              bind-HasLibrary (run_if l a.resume hw) _ y (run_if-HasLibrary a.resume hw y)
                (λ _ z. tt))))

  session-HasLibrary : (a : Arguments) (w : l.World) → HasLibrary (session l a w).0
  unfolding session with_connection
  session-HasLibrary a w =
      within (connect l a.backend a.host a.port w).0 (connect l a.backend a.host a.port w).1
        (connect-HasLibrary a.backend a.host a.port w)
    where
      within :
          (r : Result (Hw l)) (u : l.World)
          → HasLibrary r
          → HasLibrary (with_connection l r (probe_body l a) u).0
      within (ok hw) u h = probe_body-HasLibrary a hw u
      within (err e) u h = h

below_two : (n : ℕ) → n < 2 → ok n ≢ ok 2
below_two n h e = absurd (omega (arith, h, ok-injective n 2 e))

caught-status : {A : Type 0} (r : Result A) → HasLibrary r → caught r ≢ ok 2
unfolding caught
caught-status (ok a) h = below_two 0 (omega arith)
caught-status (err hw_library_not_found) h = absurd (cc h)
caught-status (err hw_error) h = below_two 1 (omega arith)
caught-status (err hw_connect_error) h = below_two 1 (omega arith)
caught-status (err hw_flash_error) h = below_two 1 (omega arith)
caught-status (err hw_state_error) h = below_two 1 (omega arith)
caught-status (err source_error) h = λ e. cc e
caught-status (err file_not_found) h = λ e. cc e
caught-status (err key_error) h = λ e. cc e
caught-status (err value_error) h = λ e. cc e
caught-status (err type_error) h = λ e. cc e
caught-status (err attribute_error) h = λ e. cc e

-- The command never returns 2: where the library is not found, listing the databases has already raised.
pub probe_main-status : (s : System) (a : Arguments) → probe_main s a ≢ ok 2
unfolding probe_main
probe_main-status s a = loaded (load_library s)
  where
    loaded :
        (r : Result Loaded)
        → (elim r [ err e ↦ err e | ok l ↦ caught (session l.library a l.world).0 ]) ≢ ok 2
    loaded (err e) = λ h. cc h
    loaded (ok l) =
        caught-status (session l.library a l.world).0 (session-HasLibrary l.library a l.world)
