-- ===== src/Tests/Restart.antt =====
-- A later Driver's recovery of tasks, at concrete inputs.
use nomad_driver_systemd.Prelude.{true, some, ◌≡◌, refl}
use nomad_driver_systemd.Prelude.Map.{lookup}
use nomad_driver_systemd.Errors.{ok, is_ok}
use nomad_driver_systemd.Policy.{compile_unit_policy, compile_patterns}
use nomad_driver_systemd.Manager.{get_conn, op_context, new_manager}
use nomad_driver_systemd.Manager.Connect.{make_manager}
use nomad_driver_systemd.Manager.Jobs.{unit_state}
use nomad_driver_systemd.Handler.{Handler}
use nomad_driver_systemd.Driver.{Driver, new_driver}
use nomad_driver_systemd.Driver.Tasks.{start_task}
use nomad_driver_systemd.Driver.Recovery.{recover_task}
use nomad_driver_systemd.Driver.Setup.{
  set_config, decode_setup, configure_pprof, start_pprof, stop_pprof, replace_manager, stop_manager,
}
use nomad_driver_systemd.Driver.Steps.{here, next, sets_config}
use nomad_driver_systemd.Driver.Handles.{Codec, Held, issued, Restored, fresh, goes_on}
use nomad_driver_systemd.Driver.Restart.{recover_task-Held}
use nomad_driver_systemd.Tests.Tasks.{
  no_managers, setup, configured, web_task, web_started, web_task-ok, configured_manager,
}
use nomad_driver_systemd.Tests.TestHost.{test_host}

abbrev before : Driver
before = (start_task web_task configured 10).1

test_host-Codec : Codec ⦃h = test_host⦄
test_host-Codec tc state e = cc

web_task-Held : Held web_started before
web_task-Held = issued no_managers web_task 10 (next here (sets_config setup 0)) web_task-ok

configured-Restored : Restored before configured
unfolding set_config decode_setup compile_unit_policy compile_patterns configure_pprof start_pprof
    stop_pprof replace_manager stop_manager make_manager new_driver lookup
configured-Restored = goes_on (fresh no_managers) (sets_config setup 0) (λ id q. q)

web_task-answered :
    (th : Handler)
    → lookup web_started.config.id before.tasks ≡ some th
    → is_ok (unit_state (configured.managers 0) configured.ended th.unit 30).0 ≡ true
unfolding set_config decode_setup compile_unit_policy compile_patterns configure_pprof start_pprof
    stop_pprof replace_manager stop_manager make_manager new_driver unit_state get_conn op_context
    new_manager
web_task-answered th e = refl

recover_task-Held_example :
    ((recover_task web_started configured 30).0 ≡ ok tt)
    × ((a b : Handler) × (lookup "t1" before.tasks ≡ some a)
        × (lookup "t1" (recover_task web_started configured 30).1.tasks ≡ some b)
        × (b.unit ≡ a.unit))
recover_task-Held_example =
    recover_task-Held web_started 0 30 test_host-Codec web_task-Held configured-Restored
      configured_manager.0 web_task-answered
