-- ===== src/Driver/Tasks.antt =====
-- plugin/task.go: StartTask, and what it shares with RecoverTask.
use nomad_driver_systemd.Prelude.{ℕ, String, true, none, some, if◌then◌else◌}
use nomad_driver_systemd.Prelude.Map.{lookup, insert}
use nomad_driver_systemd.Errors.{Result, ok, err, message, wrap, wrapped, ◌>>=◌, ◌>>◌}
use nomad_driver_systemd.Units.{UnitState, TaskState, running, is_running, to_task_state, active}
use nomad_driver_systemd.Policy.{check}
use nomad_driver_systemd.Config.{TaskConfig, validate}
use nomad_driver_systemd.Host.{Host}
use nomad_driver_systemd.Manager.{register_unit, wake_channel}
use nomad_driver_systemd.Manager.Jobs.{start_unit, stop_unit, unit_state}
use nomad_driver_systemd.Manager.Journal.{stream_logs}
use nomad_driver_systemd.Handler.{Handler, new_handler}
use nomad_driver_systemd.Driver.{Driver, get_manager, store_manager, claim_unit, release_unit}

-- Nomad's drivers.TaskConfig, with the driver's own configuration still encoded.
pub record NomadTask : Type 0 where
  pub id : String
  pub alloc_id : String
  pub name : String
  pub driver_config : String

-- Nomad's drivers.TaskHandle.
pub record TaskHandle : Type 0 where
  pub version : ℕ
  pub config : NomadTask
  pub driver_state : String

abbrev pub task_handle_version : ℕ
task_handle_version = 1

abbrev pub track : String → Handler → Driver → Driver
track id th d = record d { tasks = insert id th d.tasks }

module _ ⦃h : Host⦄ where
  open h use {World}

  abbrev pub Rpc : Type 0 → Type 0
  Rpc A = Result A × Driver × World

  unfoldable pub check_policy : Driver → String → Result (Unit {0})
  check_policy d unit = elim d.unit_policy [
    | none ↦ ok tt
    | some p ↦ wrapped "unit not permitted" (check h.regexps p unit)
  ]

  -- StartTask's checks of the task's configuration.
  unfoldable pub checked_config : NomadTask → Driver → Result TaskConfig
  checked_config cfg d = do
    tc ← wrapped "decode task config" (h.decode_driver_config cfg.driver_config)
    wrapped "invalid task config" (validate tc)
    check_policy d tc.unit
    ok tc

  unfoldable pub new_task_handle : NomadTask → TaskConfig → Result TaskHandle
  new_task_handle cfg tc = do
    state ← wrapped "encode task state" (h.set_driver_state tc)
    ok (record { version = task_handle_version; config = cfg; driver_state = state })

  unfoldable pub roll_back_failed_start : ℕ → String → Driver → World → Driver × World
  roll_back_failed_start k unit d w =
      let (r, m, w') = stop_unit (d.managers k) d.ended unit w in (store_manager k m d, w')

  -- StartTask's start of a unit that does not run yet, with the state that it then assumes.
  unfoldable pub bring_up : ℕ → String → Driver → World → Rpc UnitState
  bring_up k unit d w =
      let (r, w') = unit_state (d.managers k) d.ended unit w in
      elim r [
        | err e ↦ (err (wrap "get unit status" e), d, w')
        | ok s ↦
            if is_running (to_task_state s)
            then (ok s, d, w')
            else (let (r', w'') = start_unit (d.managers k) d.ended unit w' in
                elim r' [
                  | ok _ ↦ (ok active, d, w'')
                  | err e ↦
                      let (d', w3) = roll_back_failed_start k unit d w'' in
                      (err (wrap "start unit" e), d', w3)
                ])
      ]

  -- RegisterUnit and NewHandler.
  unfoldable pub adopt : ℕ → String → String → TaskState → Driver → World → Handler × Driver × World
  adopt k id unit state d w =
      let (m, w') = register_unit d.ended unit (d.managers k) w in
      let (t, w'') = h.now w' in
      (new_handler id unit k (wake_channel m unit) state t, store_manager k m d, w'')

  -- Handler.Start, whose log streaming may fail, and the entry in the store of tasks.
  unfoldable pub launch : String → Handler → Driver → World → Driver × World
  launch id th d w =
      let (r, m, w') = stream_logs (d.managers th.units) th.unit w in
      (track id (record th { watching = true }) (store_manager th.units m d), w')

  unfoldable pub announce : NomadTask → String → UnitState → World → World
  announce cfg unit state w =
      let (t, w') = h.now w in
      (h.emit_event
        (record {
          task_id = cfg.id;
          alloc_id = cfg.alloc_id;
          task_name = cfg.name;
          timestamp = t;
          unit = unit;
          state = state;
        })
        w').1

  -- StartTask with the unit claimed and the handle made.
  unfoldable pub start_claimed :
      ℕ → NomadTask → String → TaskHandle → Driver → World → Rpc TaskHandle
  start_claimed k cfg unit handle d w =
      let (r, d', w') = bring_up k unit d w in
      elim r [
        | err e ↦ (err e, release_unit unit d', w')
        | ok s ↦
            let (th, d2, w2) = adopt k cfg.id unit running d' w' in
            let (d3, w3) = launch cfg.id th d2 w2 in (ok handle, d3, announce cfg unit s w3)
      ]

  -- StartTask from the claim on.
  unfoldable pub claim_and_start : ℕ → NomadTask → TaskConfig → Driver → World → Rpc TaskHandle
  claim_and_start k cfg tc d w =
      let (r, d') = claim_unit tc.unit cfg.id d in
      elim r [
        | err e ↦ (err e, d', w)
        | ok _ ↦ elim (new_task_handle cfg tc) [
          | err e ↦ (err e, release_unit tc.unit d', w)
          | ok handle ↦ start_claimed k cfg tc.unit handle d' w
        ]
      ]

  unfoldable pub start_task : NomadTask → Driver → World → Rpc TaskHandle
  start_task cfg d w = elim (lookup cfg.id d.tasks) [
    | some _ ↦ (err (message "task already started"), d, w)
    | none ↦ elim (checked_config cfg d) [
      | err e ↦ (err e, d, w)
      | ok tc ↦ elim (get_manager d) [ err e ↦ (err e, d, w) | ok k ↦ claim_and_start k cfg tc d w ]
    ]
  ]
