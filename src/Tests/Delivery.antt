-- ===== src/Tests/Delivery.antt =====
-- The exit of a task that StartTask has started, at concrete inputs.
use nomad_driver_systemd.Prelude.{◌⊎◌, [], ◌∷◌, true, false, some, ◌≡◌, refl}
use nomad_driver_systemd.Prelude.Map.{lookup, insert, delete}
use nomad_driver_systemd.Errors.{ok}
use nomad_driver_systemd.Units.{
  is_exited, running, failed, ExitResult, is_terminal, parse_unit_state, to_task_state,
}
use nomad_driver_systemd.Manager.{
  new_manager, get_conn, op_context, register_unit, enter_unit, wake_channel, registered,
  cache_unit_properties, store_control_group,
}
use nomad_driver_systemd.Manager.Jobs.{unit_state, start_unit, wait_job_result}
use nomad_driver_systemd.Handler.{WaitClosed, Handler, new_handler}
use nomad_driver_systemd.Driver.{Driver, new_driver, get_manager, claim_unit}
use nomad_driver_systemd.Driver.Tasks.{
  start_task, checked_config, check_policy, claim_and_start, new_task_handle, start_claimed,
  bring_up, adopt, launch, announce,
}
use nomad_driver_systemd.Driver.Teardown.{deliver}
use nomad_driver_systemd.Driver.Setup.{
  set_config, decode_setup, configure_pprof, start_pprof, stop_pprof, replace_manager, stop_manager,
}
use nomad_driver_systemd.Driver.Steps.{here, next, sets_config, starts_task}
use nomad_driver_systemd.Policy.{
  compile_unit_policy, compile_patterns, check, check_allowed, first_match,
}
use nomad_driver_systemd.Manager.Connect.{make_manager}
use nomad_driver_systemd.Config.{validate, is_name_char, unit_name_pattern}
use nomad_driver_systemd.Config.Regex.{match_re}
use nomad_driver_systemd.Manager.Journal.{stream_logs, attach_reader}
use nomad_driver_systemd.Watch.{Watch, changes, AllPrompt, AllOwn}
use nomad_driver_systemd.Watch as Watching
use nomad_driver_systemd.Watch.Awake.{owed}
use nomad_driver_systemd.Watch.Tracked.{looks, Reach-owed_tracked, Reach-delivers}
use nomad_driver_systemd.Tests.TestHost.{test_host}
use nomad_driver_systemd.Tests.Tasks.{no_managers, setup, configured, web_task}

abbrev dead_started : Driver
dead_started = (start_task (record web_task { driver_config = "dead.service" }) configured 10).1

abbrev dead_tracked : Handler
unfolding new_handler
dead_tracked = record (new_handler "t1" "dead.service" 0 (some 0) running 15) { watching = true }

-- The unit fails before the first look after StartTask.
abbrev dead_failed : Watch
dead_failed = record (looks false [] dead_started dead_tracked) {
  terminal = true;
  queued = dead_tracked.unit ∷ [];
}

dead_started-tracks :
    (lookup "t1" dead_started.tasks ≡ some dead_tracked)
    × (dead_started.systemd_mgr ≡ some 0)
    × ((unit_state dead_failed.manager dead_failed.handler.ended dead_failed.handler.unit 20).0
        ≡ ok failed)
unfolding set_config decode_setup compile_unit_policy compile_patterns configure_pprof start_pprof
    stop_pprof replace_manager stop_manager make_manager new_driver start_task checked_config
    validate is_name_char unit_name_pattern match_re check_policy check check_allowed first_match
    get_manager claim_and_start claim_unit new_task_handle start_claimed bring_up unit_state
    get_conn op_context parse_unit_state to_task_state start_unit register_unit enter_unit adopt
    wake_channel new_handler launch stream_logs announce lookup insert delete new_manager
    wait_job_result cache_unit_properties store_control_group registered attach_reader
dead_started-tracks = (refl, refl, refl)

failing : Watching.Reach 0 (looks false [] dead_started dead_tracked) dead_failed
failing = Watching.next Watching.here (changes true)

dead_waits : dead_tracked.wake_ch ≡ some 0
unfolding new_handler
dead_waits = refl

dead_running : is_exited dead_tracked.state ≡ false
unfolding new_handler
dead_running = refl

Reach-owed_tracked_example : owed 0 dead_failed ≡ true
unfolding new_handler
Reach-owed_tracked_example =
    Reach-owed_tracked no_managers
      (next (next here (sets_config setup 0))
        (starts_task (record web_task { driver_config = "dead.service" }) 10))
      ((tt, tt), tt) "t1" dead_tracked 0 dead_started-tracks.0 dead_started-tracks.1 dead_waits
      false [] failing refl dead_running

Reach-delivers_example :
    (e : Watch) × (q : Watching.Reach 0 dead_failed e) × AllOwn 0 q
    × WaitClosed e.handler
    × ((dead_failed.unsure ≡ true) ⊎ AllPrompt 0 q)
    × (x : ExitResult) × (deliver false e.handler ≡ some x)
unfolding new_handler is_terminal
Reach-delivers_example =
    Reach-delivers no_managers
      (next (next here (sets_config setup 0))
        (starts_task (record web_task { driver_config = "dead.service" }) 10))
      ((tt, tt), tt) "t1" dead_tracked 0 dead_started-tracks.0 dead_started-tracks.1 dead_waits
      false [] failing 20 failed (dead_started-tracks.2, refl, refl)
