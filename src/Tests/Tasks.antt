-- ===== src/Tests/Tasks.antt =====
-- Handlers and the Driver's RPCs at concrete inputs.
use nomad_driver_systemd.Prelude.{arith, ◌<◌, ℕ, true, none, some, ◌≡◌, refl, ◌≢◌}
use nomad_driver_systemd.Prelude.Map.{lookup, insert, delete}
use nomad_driver_systemd.Errors.{ok}
use nomad_driver_systemd.Units.{running, clean_exit, failed_exit, parse_unit_state, to_task_state}
use nomad_driver_systemd.Manager.{
  Manager, new_manager, get_conn, op_context, register_unit, enter_unit, wake_channel,
}
use nomad_driver_systemd.Manager.Jobs.{unit_state, start_unit}
use nomad_driver_systemd.Handler.{
  check_task_state, Handler, new_handler, set_exit_result, publish_exit,
}
use nomad_driver_systemd.Handler.Exit.{
  Sound, Sections, Sections-Sound, Sections-exited, new_handler-Sound, publishes, records, done,
  Frozen,
}
use nomad_driver_systemd.Handler.Observe.{CheckOutcome, check_task_state_cases}
use nomad_driver_systemd.Driver.{Driver, new_driver, get_manager, claim_unit}
use nomad_driver_systemd.Driver.Tasks.{
  NomadTask, TaskHandle, start_task, checked_config, check_policy, claim_and_start, new_task_handle,
  start_claimed, bring_up, adopt, launch, announce,
}
use nomad_driver_systemd.Driver.Teardown.{timed_out}
use nomad_driver_systemd.Driver.Setup.{
  PluginSetup, set_config, decode_setup, configure_pprof, start_pprof, stop_pprof, replace_manager,
  stop_manager,
}
use nomad_driver_systemd.Driver.Ownership.{Owned}
use nomad_driver_systemd.Driver.Starting.{StartOutcome, start_task_cases}
use nomad_driver_systemd.Driver.Recovering.{RecoverOutcome, recover_task_cases}
use nomad_driver_systemd.Driver.Stopping.{DestroyOutcome, destroy_task_cases}
use nomad_driver_systemd.Driver.Steps.{Reach, here, next, sets_config, starts_task, Reach-Owned}
use nomad_driver_systemd.Policy.{
  compile_unit_policy, compile_patterns, check, check_allowed, first_match,
}
use nomad_driver_systemd.Manager.Connect.{make_manager}
use nomad_driver_systemd.Config.{validate, is_name_char, unit_name_pattern}
use nomad_driver_systemd.Config.Regex.{match_re}
use nomad_driver_systemd.Manager.Journal.{stream_logs}
use nomad_driver_systemd.Manager.Contexts.{EndedCallsFail}
use nomad_driver_systemd.Driver.Configuring.{SetConfigOutcome, set_config_cases}
use nomad_driver_systemd.Driver.Reload.{set_config-check_task_state}
use nomad_driver_systemd.Driver.Recovery.{recover_task, claim_and_recover, recover_claimed}
use nomad_driver_systemd.Manager.Steps as Managers
use nomad_driver_systemd.Tests.TestHost.{test_host}

abbrev pub dead : Handler
unfolding new_handler
dead = new_handler "t1" "dead.service" 0 none running 3

abbrev pub manager : Manager
unfolding new_manager
manager = new_manager 1

observed : Sections dead (publish_exit clean_exit 8 (publish_exit failed_exit 7 dead))
observed = Sections.then (Sections.then done (publishes failed_exit 7)) (publishes clean_exit 8)

Sections-Sound_example : Sound (publish_exit clean_exit 8 (publish_exit failed_exit 7 dead))
unfolding new_handler
Sections-Sound_example =
    Sections-Sound (new_handler-Sound "t1" "dead.service" 0 none running 3 (λ e. cc)) observed

abbrev over : Handler
over = publish_exit failed_exit 7 dead

Sections-exited_example :
    Frozen
      (some (clean_exit, 9))
      over
      (publish_exit clean_exit 8 (set_exit_result clean_exit 9 over))
unfolding publish_exit set_exit_result new_handler
Sections-exited_example =
    Sections-exited {h = over} refl
      (Sections.then (Sections.then done (records clean_exit 9 refl)) (publishes clean_exit 8))

check_task_state_cases_example : CheckOutcome manager dead 5
unfolding new_handler
check_task_state_cases_example = check_task_state_cases manager dead 5 refl

abbrev pub no_managers : ℕ → Manager
no_managers k = manager

abbrev pub web_task : NomadTask
web_task = record { id = "t1"; alloc_id = "a1"; name = "web"; driver_config = "web.service" }

abbrev pub setup : PluginSetup
setup = record { plugin_config = none; has_agent_config = true; compute = 7 }

abbrev pub configured : Driver
configured = (set_config setup (new_driver no_managers) 0).1

abbrev started : Driver
started = (start_task web_task configured 10).1

history : Reach (new_driver no_managers) started
history = next (next here (sets_config setup 0)) (starts_task web_task 10)

Reach-Owned_example : Owned started
Reach-Owned_example = Reach-Owned no_managers history

configured-Owned : Owned configured
configured-Owned = Reach-Owned no_managers (next here (sets_config setup 0))

started-Owned : Owned started
started-Owned = Reach-Owned no_managers history

start_task_cases_example : StartOutcome web_task started 20
start_task_cases_example = start_task_cases web_task started 20 started-Owned

abbrev pub dead_handle : TaskHandle
dead_handle = record {
  version = 1;
  config = record web_task { id = "t2" };
  driver_state = "dead.service";
}

recover_task_cases_example : RecoverOutcome dead_handle started 20
recover_task_cases_example = recover_task_cases dead_handle started 20 started-Owned

destroy_task_cases_example : DestroyOutcome "t1" true timed_out started 20
destroy_task_cases_example = destroy_task_cases "t1" true timed_out started 20

abbrev pub web_started : TaskHandle
web_started = record { version = 1; config = web_task; driver_state = "web.service" }

pub web_task-ok : (start_task web_task configured 10).0 ≡ ok web_started
unfolding set_config decode_setup compile_unit_policy compile_patterns configure_pprof start_pprof
    stop_pprof replace_manager stop_manager make_manager new_driver start_task checked_config
    validate is_name_char unit_name_pattern match_re check_policy check check_allowed first_match
    get_manager claim_and_start claim_unit new_task_handle start_claimed bring_up unit_state
    get_conn op_context parse_unit_state to_task_state start_unit register_unit enter_unit adopt
    wake_channel new_handler launch stream_logs announce lookup insert delete new_manager
web_task-ok = refl

pub dead_handle-ok : (recover_task dead_handle configured 10).0 ≡ ok tt
unfolding set_config decode_setup compile_unit_policy compile_patterns configure_pprof start_pprof
    stop_pprof replace_manager stop_manager make_manager new_driver start_task checked_config
    validate is_name_char unit_name_pattern match_re check_policy check check_allowed first_match
    get_manager claim_and_start claim_unit new_task_handle start_claimed bring_up unit_state
    get_conn op_context parse_unit_state to_task_state start_unit register_unit enter_unit adopt
    wake_channel new_handler launch stream_logs announce lookup insert delete new_manager
    recover_task claim_and_recover recover_claimed
dead_handle-ok = refl

pub dead_handle-new : lookup dead_handle.config.id configured.tasks ≡ none
unfolding set_config decode_setup compile_unit_policy compile_patterns configure_pprof start_pprof
    stop_pprof replace_manager stop_manager make_manager new_driver lookup
dead_handle-new = refl

pub configured_manager : (configured.systemd_mgr ≡ some 0) × Managers.Wakes (configured.managers 0)
unfolding set_config decode_setup compile_unit_policy compile_patterns configure_pprof start_pprof
    stop_pprof replace_manager stop_manager make_manager new_driver
configured_manager = (refl, Managers.Reach-Wakes 1 Managers.here)

pub test_host-ends : EndedCallsFail ⦃h = test_host⦄
test_host-ends op c unit property w e = rw e refl

reload-ok : (set_config setup configured 20).0 ≡ ok tt
unfolding set_config decode_setup compile_unit_policy compile_patterns configure_pprof start_pprof
    stop_pprof replace_manager stop_manager make_manager new_driver
reload-ok = refl

has_manager : (configured.systemd_mgr ≡ some 0) × (0 < configured.next_manager)
unfolding set_config decode_setup compile_unit_policy compile_patterns configure_pprof start_pprof
    stop_pprof replace_manager stop_manager make_manager new_driver
has_manager = (refl, omega arith)

set_config-check_task_state_example :
    (check_task_state ((set_config setup configured 20).1.managers 0) dead 30).1 ≡ dead
set_config-check_task_state_example =
    set_config-check_task_state test_host-ends setup configured 20 0 has_manager.0 has_manager.1
      reload-ok ((set_config setup configured 20).1.managers 0) Managers.here dead 30

configured-pprof : configured.pprof ≢ some ""
unfolding set_config decode_setup compile_unit_policy compile_patterns configure_pprof start_pprof
    stop_pprof replace_manager stop_manager make_manager new_driver
configured-pprof e = cc

set_config_cases_example : SetConfigOutcome setup configured 20 0
set_config_cases_example = set_config_cases setup configured 20 0 has_manager.1 configured-pprof
