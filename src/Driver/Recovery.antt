-- ===== src/Driver/Recovery.antt =====
-- plugin/task.go: RecoverTask.
use nomad_driver_systemd.Prelude.{ℕ, ◌*◌, String, none, some, if◌then◌else◌}
use nomad_driver_systemd.Prelude.Map.{lookup}
use nomad_driver_systemd.Errors.{ok, err, wrap}
use nomad_driver_systemd.Units.{
  UnitState, TaskState, unknown, running, exited, is_exited, to_task_state,
}
use nomad_driver_systemd.Host.{Host}
use nomad_driver_systemd.Manager.Jobs.{unit_state, unit_start_time}
use nomad_driver_systemd.Handler.{
  Handler, set_exit_result, set_started_at, known_exit, resolve_exit,
}
use nomad_driver_systemd.Driver.{Driver, get_manager, claim_unit, release_unit}
use nomad_driver_systemd.Driver.Tasks.{TaskHandle, Rpc, adopt, launch}

-- A unit between states counts as running.
abbrev pub recovered_state : TaskState → TaskState
recovered_state unknown = running
recovered_state running = running
recovered_state exited = exited

module _ ⦃h : Host⦄ where
  open h use {World}

  -- The start time of the unit, if it can be determined.
  unfoldable pub recover_start_time : ℕ → Handler → Driver → World → Handler × World
  recover_start_time k th d w =
      let (r, w') = unit_start_time (d.managers k) d.ended th.unit w in
      (elim r [ ok usec ↦ set_started_at (usec * 1000) th | err e ↦ th ], w')

  -- RecoverTask's exit result, which falls back as the Handler's does.
  unfoldable pub recover_exit : ℕ → UnitState → Handler → Driver → World → Handler × World
  recover_exit k active_state th d w =
      if is_exited (to_task_state active_state)
      then (let (r, w') = known_exit (d.managers k) d.ended th.unit w in
          let (t, w'') = h.now w' in (set_exit_result (resolve_exit active_state r) t th, w''))
      else (th, w)

  unfoldable pub recover_claimed : ℕ → String → String → Driver → World → Rpc (Unit {0})
  recover_claimed k id unit d w =
      let (r, w1) = unit_state (d.managers k) d.ended unit w in
      elim r [
        | err e ↦ (err (wrap "get unit status" e), release_unit unit d, w1)
        | ok s ↦
            let (th, d2, w2) = adopt k id unit (recovered_state (to_task_state s)) d w1 in
            let (th3, w3) = recover_start_time k th d2 w2 in
            let (th4, w4) = recover_exit k s th3 d2 w3 in
            let (d5, w5) = launch id th4 d2 w4 in (ok tt, d5, w5)
      ]

  unfoldable pub claim_and_recover : ℕ → String → String → Driver → World → Rpc (Unit {0})
  claim_and_recover k id unit d w =
      let (r, d') = claim_unit unit id d in
      elim r [ err e ↦ (err e, d', w) | ok _ ↦ recover_claimed k id unit d' w ]

  unfoldable pub recover_task : TaskHandle → Driver → World → Rpc (Unit {0})
  recover_task handle d w = elim (lookup handle.config.id d.tasks) [
    | some _ ↦ (ok tt, d, w)
    | none ↦ elim (h.get_driver_state handle.driver_state) [
      | err e ↦ (err (wrap "decode task config" e), d, w)
      | ok tc ↦ elim (get_manager d) [
        | err e ↦ (err e, d, w)
        | ok k ↦ claim_and_recover k handle.config.id tc.unit d w
      ]
    ]
  ]
