-- ===== src/Tests/Managers.antt =====
-- The Manager's registry and its samples at concrete inputs.
use nomad_driver_systemd.Prelude.{ℕ, refl, List, [], ◌∷◌, none, ◌⊎◌, true, false, ◌≡◌, some}
use nomad_driver_systemd.Errors.{Error, ok, err, is_unit_not_registered}
use nomad_driver_systemd.Manager.{
  Manager, new_manager, enter_unit, registered, start_locked, enter_locked, new_entry, update,
  unit_locked,
}
use nomad_driver_systemd.Manager.Journal.{attach_reader}
use nomad_driver_systemd.Manager.Steps.{Wakes, Reach, here, next, enters, attaches, Reach-Wakes}
use nomad_driver_systemd.Manager.Cancelling as Cancelling
use nomad_driver_systemd.Manager.Cancelling.{
  Readers, at_stage, kept, starting, unissued, no_readers,
}
use nomad_driver_systemd.Manager.Cancelling.Moves.{Tidy}
use nomad_driver_systemd.Manager.Cancelling.Invariant.{Reach-Tidy_readers}
use nomad_driver_systemd.Prelude.Map.{lookup, insert}
use nomad_driver_systemd.Manager.Stats.{ResourceStats, sample_at, resource_stats}
use nomad_driver_systemd.Manager.Readings.{ReadsFiles, sample_at-ReadsFiles}
use nomad_driver_systemd.Manager.Measured.{SampleTold, resource_stats-Told}
use nomad_driver_systemd.Manager.Connect.{
  reconnect_interval, ReconnectEvent, context_done, timer_fired, reconnect_loop,
}
use nomad_driver_systemd.Manager.Backoff.{reconnect_loop-doublings, doublings}
use nomad_driver_systemd.Tests.TestHost.{test_host}

abbrev streaming : Manager
streaming =
    (attach_reader "web.service"
      (enter_unit "db.service" (enter_unit "web.service" (new_manager 1)))).1

streaming-reached : Reach (new_manager 1) streaming
streaming-reached =
    next (next (next here (enters "web.service")) (enters "db.service")) (attaches "web.service")

Reach-Wakes_example : Wakes streaming
Reach-Wakes_example = Reach-Wakes 1 streaming-reached

-- The reader of web.service is registered.
abbrev running : Readers
running = record {
  manager =
      start_locked "web.service" 0 (new_entry 0)
        (record (enter_locked "web.service" (new_manager 1)) {
          next_reader = 1;
          cancelled = update (λ _. false) 0 false;
        });
  stage = at_stage 0 kept (at_stage 0 starting (λ r. unissued));
}

web_entry :
    unit_locked (enter_locked "web.service" (new_manager 1)) "web.service" ≡ some (new_entry 0)
unfolding unit_locked new_manager lookup insert
web_entry = refl

started : Cancelling.Reach (no_readers 1) running
unfolding new_manager unit_locked lookup
started =
    Cancelling.next
      (Cancelling.next (Cancelling.next Cancelling.here (Cancelling.enters "web.service"))
        Cancelling.issues)
      (Cancelling.starts "web.service" 0 (new_entry 0) refl web_entry refl)

Reach-Tidy_readers_example : Tidy running
Reach-Tidy_readers_example = Reach-Tidy_readers 1 started

resource_stats-Told_example :
    ((registered streaming "web.service" ≡ true)
      × SampleTold (resource_stats streaming false "web.service" 4).0)
    ⊎ ((registered streaming "web.service" ≡ false)
        × ((e : Error) × ((resource_stats streaming false "web.service" 4).0 ≡ err e)
            × (is_unit_not_registered e ≡ true)))
resource_stats-Told_example = resource_stats-Told streaming false "web.service" 4

sample_at-ReadsFiles_example :
    (s : ResourceStats ℕ) × ((sample_at "web.service" "/test" streaming 4).0 ≡ ok s)
    × ReadsFiles "web.service" "/test" streaming 4 s (sample_at "web.service" "/test" streaming 4).1
sample_at-ReadsFiles_example = sample_at-ReadsFiles "web.service" "/test" streaming 4 refl

abbrev rounds : List (ReconnectEvent ⦃h = test_host⦄)
rounds =
    timer_fired (record (new_manager 1) { conn = none }) 5
    ∷ timer_fired (new_manager 1) 6
    ∷ context_done
    ∷ []

reconnect_loop-doublings_example : reconnect_loop reconnect_interval rounds ≡ doublings 0 rounds
reconnect_loop-doublings_example = reconnect_loop-doublings rounds
