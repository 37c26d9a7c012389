-- ===== src/Tests/Pprof.antt =====
-- The pprof servers at concrete inputs.
use nomad_driver_systemd.Prelude.{ℕ, true, false, some, ◌≡◌, refl}
use nomad_driver_systemd.Driver.{Driver, new_driver}
use nomad_driver_systemd.Driver.Setup as Setup
use nomad_driver_systemd.Driver.Pprof.{
  Server, Servers, no_servers, configure, stop_current, configures, Reach, here, next,
}
use nomad_driver_systemd.Driver.Pprof.Listeners.{Tidy, Reach-Tidy}
use nomad_driver_systemd.Driver.Pprof.Refine.{address, Agrees, Reconfigures, Reach-Agrees}
use nomad_driver_systemd.Tests.TestHost.{test_host}
use nomad_driver_systemd.Tests.Tasks.{no_managers}

abbrev unused : ℕ → Server
unused k = record { addr = ""; stopped = true; closes = 1 }

abbrev first : Servers
first = (configure "127.0.0.1:6060" (no_servers unused) 0).1

abbrev second : Servers
second = (configure "127.0.0.1:7070" first 10).1

reloaded : Reach (no_servers unused) second
reloaded = next (next here (configures "127.0.0.1:6060" 0)) (configures "127.0.0.1:7070" 10)

Reach-Tidy_example : Tidy second
Reach-Tidy_example = Reach-Tidy unused reloaded

-- The first server's listener is closed, and the second server is the Driver's.
second_serves : (second.current ≡ some 1) × ((second.made 0).closes ≡ 1) × (second.ended ≡ false)
unfolding configure no_servers
second_serves = (refl, refl, refl)

abbrev served : Driver
served = record (new_driver no_managers) { pprof = address second }

Reach-Agrees_example :
    Agrees "" second served 20
    × Reconfigures "" second 20
    × ((Setup.stop_pprof served 20).0.pprof ≡ address (stop_current second 20).0)
    × ((stop_current second 20).1 ≡ (Setup.stop_pprof served 20).1)
Reach-Agrees_example = Reach-Agrees unused reloaded second_serves.2 served refl "" 20
