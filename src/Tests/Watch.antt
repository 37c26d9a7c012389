-- ===== src/Tests/Watch.antt =====
-- The tasks that StartTask and RecoverTask leave, at concrete inputs.
use nomad_driver_systemd.Prelude.{ℕ, ap, some, ◌≡◌}
use nomad_driver_systemd.Watch.Registered.{Watched}
use nomad_driver_systemd.Driver.Tasks.{start_task}
use nomad_driver_systemd.Driver.Recovery.{recover_task}
use nomad_driver_systemd.Errors.{is_ok}
use nomad_driver_systemd.Driver.Steps as Drivers
use nomad_driver_systemd.Driver.{new_driver}
use nomad_driver_systemd.Watch.Reached.{start_task-Reach, recover_task-Reach}
use nomad_driver_systemd.Tests.Tasks.{
  no_managers, setup, configured, web_task, web_task-ok, dead_handle, dead_handle-ok,
  dead_handle-new,
}
use nomad_driver_systemd.Tests.TestHost.{test_host}

configured-Reach : Drivers.Reach (new_driver no_managers) configured
configured-Reach = Drivers.next Drivers.here (Drivers.sets_config setup 0)

start_task-Reach_example :
    (k : ℕ) × (configured.systemd_mgr ≡ some k)
    × Watched "t1" k (start_task web_task configured 10).1
start_task-Reach_example =
    start_task-Reach no_managers web_task 10 configured-Reach (ap is_ok web_task-ok)

recover_task-Reach_example :
    (k : ℕ) × (configured.systemd_mgr ≡ some k)
    × Watched "t2" k (recover_task dead_handle configured 10).1
recover_task-Reach_example =
    recover_task-Reach no_managers dead_handle 10 configured-Reach dead_handle-new
      (ap is_ok dead_handle-ok)
