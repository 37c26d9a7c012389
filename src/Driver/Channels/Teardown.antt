-- ===== src/Driver/Channels/Teardown.antt =====
-- plugin/task.go: which units' wake channels StopTask and DestroyTask change.
use nomad_driver_systemd.Prelude.{
  String, Bool, some, ◌≡◌, refl, arith, inl, inr, Bool-cases, Option-cases,
}
use nomad_driver_systemd.Prelude.Int.{ℤ}
use nomad_driver_systemd.Prelude.Map.{lookup, delete}
use nomad_driver_systemd.Host.{Host}
use nomad_driver_systemd.Manager.Jobs.{kill_unit, stop_unit}
use nomad_driver_systemd.Handler.{Handler, has_exited, stop}
use nomad_driver_systemd.Driver.{Driver, get_manager}
use nomad_driver_systemd.Driver.Tasks.{track}
use nomad_driver_systemd.Driver.Teardown.{
  StopRace, exit_seen, stop_returned, timed_out, no_grace, stop_handler, kill_handler,
  force_kill_task, stop_or_kill, await_stop, stop_task, unregister, forget, destroy_task,
}
use nomad_driver_systemd.Errors.{Result-cases}
use nomad_driver_systemd.Manager.Registry.{wake_channel-unregister_unit}
use nomad_driver_systemd.Driver.Channels.{
  Except, Quiet, nothing, only, Except-trans, Quiet-Except, Except-same, Quiet-refl,
  store_manager-Except, wake_unit-channel, release_unit-Except,
}

module _ ⦃h : Host⦄ where
  open h use {World}

  stop_handler-Quiet : (th : Handler) (d : Driver) (w : World) → Quiet d (stop_handler th d w).1
  unfolding stop_handler stop_unit
  stop_handler-Quiet th d w =
      store_manager-Except nothing th.units _ d
        (λ u n. wake_unit-channel th.unit (d.managers th.units) u)

  kill_handler-Quiet : (th : Handler) (d : Driver) (w : World) → Quiet d (kill_handler th d w).1
  unfolding kill_handler kill_unit
  kill_handler-Quiet th d w =
      store_manager-Except nothing th.units _ d
        (λ u n. wake_unit-channel th.unit (d.managers th.units) u)

  force_kill_task-Quiet :
      (th : Handler) (d : Driver) (w : World) → Quiet d (force_kill_task th d w).1
  unfolding force_kill_task
  force_kill_task-Quiet th d w = elim (Result-cases (kill_handler th d w).0) [
    | inl (u, q) ↦ rw (q, force_kill_task) (kill_handler-Quiet th d w)
    | inr (e, q) ↦ rw (q, force_kill_task) (kill_handler-Quiet th d w)
  ]

  await_stop-Quiet :
      (race : StopRace) (th : Handler) (d : Driver) (w : World) → Quiet d (await_stop race th d w).1
  unfolding await_stop stop_or_kill
  await_stop-Quiet exit_seen th d w = Quiet-refl d
  await_stop-Quiet stop_returned th d w = elim (Result-cases (stop_handler th d w).0) [
    | inl (u, q) ↦ rw (q, stop_or_kill) (stop_handler-Quiet th d w)
    | inr (e, q) ↦
        rw (q, stop_or_kill)
          (Except-trans nothing (stop_handler-Quiet th d w) (force_kill_task-Quiet th _ _))
  ]
  await_stop-Quiet timed_out th d w = force_kill_task-Quiet th d w

  pub stop_task-Quiet :
      (id : String) (timeout : ℤ) (race : StopRace) (d : Driver) (w : World)
      → Quiet d (stop_task id timeout race d w).1
  unfolding stop_task
  stop_task-Quiet id timeout race d w = elim (Option-cases (lookup id d.tasks)) [
    | inl n ↦ rw (n, stop_task) (Quiet-refl d)
    | inr (th, t) ↦ elim (Bool-cases (no_grace timeout)) [
      | inl g ↦ rw (t, stop_task) (rw g (force_kill_task-Quiet th d w))
      | inr g ↦ rw (t, stop_task) (rw g (await_stop-Quiet race th d w))
    ]
  ]

  unregister-Except : (unit : String) (d : Driver) → Except (only unit) d (unregister unit d)
  unfolding unregister
  unregister-Except unit d = elim (Result-cases (get_manager d)) [
    | inr (e, g) ↦ rw (g, unregister) (Quiet-Except (only unit) (Quiet-refl d))
    | inl (k, g) ↦
        rw (g, unregister)
          (store_manager-Except (only unit) k _ d
            (λ u n. ground (arith, wake_channel-unregister_unit unit (d.managers k) u)))
  ]

  forget-Except :
      (id : String) (th : Handler) (d : Driver) → Except (only th.unit) d (forget id th d)
  unfolding forget
  forget-Except id th d =
      let f = only th.unit in
      let d1 = track id (stop th) d in
      let d2 = unregister th.unit d1 in
      let d3 : Driver = record d2 { tasks = delete id d2.tasks } in
      Except-trans f (Except-same f d d1 refl) (
        Except-trans f (unregister-Except th.unit d1)
          (Except-trans f (Except-same f d2 d3 refl) (release_unit-Except f th.unit d3)))

  -- DestroyTask of a tracked task changes no channels but those of the task's unit.
  pub destroy_task-Except :
      (id : String) (force : Bool) (race : StopRace) (th : Handler) (d : Driver) (w : World)
      → lookup id d.tasks ≡ some th
      → Except (only th.unit) d (destroy_task id force race d w).1
  unfolding destroy_task
  destroy_task-Except id force race th d w t = elim (Bool-cases (has_exited th)) [
    | inl x ↦ rw (t, destroy_task) (rw x (forget-Except id th d))
    | inr x ↦ elim (Bool-cases force) [
      | inr o ↦ rw (t, destroy_task) (rw x (rw o (Quiet-Except (only th.unit) (Quiet-refl d))))
      | inl o ↦
          rw (t, destroy_task)
            (rw x (
              rw o (
                Except-trans (only th.unit)
                  (Quiet-Except (only th.unit) (await_stop-Quiet race th d w))
                  (forget-Except id th (await_stop race th d w).1))))
    ]
  ]
