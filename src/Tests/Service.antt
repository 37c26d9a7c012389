-- ===== src/Tests/Service.antt =====
-- A sequence of Nomad's calls, at concrete inputs.
use nomad_driver_systemd.Prelude.{Bool, List, [], ◌∷◌, true}
use nomad_driver_systemd.Driver.{Driver, new_driver}
use nomad_driver_systemd.Driver.Service.{
  Call, starts, destroys, inspects, configures, perform, Run, idle, calls, Serves,
}
use nomad_driver_systemd.Driver.Serving.{units_of, Run-Serves}
use nomad_driver_systemd.Driver.Teardown.{timed_out}
use nomad_driver_systemd.Driver.Managing.{Managed, Reach-Managed}
use nomad_driver_systemd.Driver.Steps.{Reach, here, next, sets_config, starts_task}
use nomad_driver_systemd.Watch.Listing.{Listing}
use nomad_driver_systemd.Watch.Kept.{Reach-Listing}
use nomad_driver_systemd.Tests.Tasks.{no_managers, setup, web_task}
use nomad_driver_systemd.Tests.TestHost.{test_host}

abbrev fresh : Driver
fresh = new_driver no_managers

abbrev ready : Driver
ready = (perform (configures setup) fresh 0).1

abbrev running : Driver
running = (perform (starts web_task) ready 10).1

abbrev stopped : Driver
stopped = (perform (destroys "t1" true timed_out) running 20).1

abbrev outcomes : List (Call × Bool)
outcomes =
    (inspects "t1", (perform (inspects "t1") stopped 30).0)
    ∷ (destroys "t1" true timed_out, (perform (destroys "t1" true timed_out) running 20).0)
    ∷ (starts web_task, (perform (starts web_task) ready 10).0)
    ∷ (configures setup, (perform (configures setup) fresh 0).0)
    ∷ []

session : Run fresh outcomes (perform (inspects "t1") stopped 30).1
session = calls (inspects "t1") 30 (
    calls (destroys "t1" true timed_out) 20
      (calls (starts web_task) 10 (calls (configures setup) 0 idle)))

Run-Serves_example : Serves outcomes (units_of (perform (inspects "t1") stopped 30).1)
Run-Serves_example = Run-Serves no_managers session

ready-Reach : Reach fresh ready
unfolding perform
ready-Reach = next here (sets_config setup 0)

Reach-Managed_example : Managed ready
Reach-Managed_example = Reach-Managed no_managers ready-Reach

Reach-Listing_example : Listing running
unfolding perform
Reach-Listing_example =
    Reach-Listing no_managers (next (next here (sets_config setup 0)) (starts_task web_task 10))
      ((tt, tt), tt)
