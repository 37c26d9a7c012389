-- ===== src/Driver/Teardown.antt =====
-- plugin/task.go: StopTask, DestroyTask, WaitTask and InspectTask. A `select` over a goroutine's result,
-- a timer and a channel takes its outcome from outside, as an argument.
use nomad_driver_systemd.Prelude.{
  zero, suc, String, Bool, true, false, Option, none, some, if◌then◌else◌,
}
use nomad_driver_systemd.Prelude.Int.{ℤ, pos, negsuc}
use nomad_driver_systemd.Prelude.Map.{lookup, delete}
use nomad_driver_systemd.Errors.{Result, ok, err, wrap, message, task_not_found}
use nomad_driver_systemd.Units.{UnitState, is_terminal, ExitResult, clean_exit}
use nomad_driver_systemd.Host.{Host}
use nomad_driver_systemd.Manager.{unregister_unit}
use nomad_driver_systemd.Manager.Jobs.{stop_unit, kill_unit, unit_state}
use nomad_driver_systemd.Handler.{Handler, TaskStatus, task_status, has_exited, stop}
use nomad_driver_systemd.Driver.{Driver, get_manager, store_manager, release_unit}
use nomad_driver_systemd.Driver.Tasks.{Rpc, track}

-- What the selects of StopTask and DestroyTask receive first: the task's exit, the return of the
-- concurrent StopUnit, or the end of the grace period. StopUnit is started in every case; where it has
-- not returned, also without a grace period, its calls are part of what others do to the world, and
-- its wake is a step of the Manager's own.
pub data StopRace : Type 0 where
  exit_seen stop_returned timed_out : StopRace

abbrev pub no_grace : ℤ → Bool
no_grace (pos zero) = true
no_grace (pos (suc n)) = false
no_grace (negsuc n) = true

abbrev answers_terminal : Result UnitState → Bool
answers_terminal (ok s) = is_terminal s
answers_terminal (err e) = false

module _ ⦃h : Host⦄ where
  open h use {World}

  -- The methods StopUnit, KillUnit and UnitState of a Handler.
  unfoldable pub stop_handler : Handler → Driver → World → Rpc (Unit {0})
  stop_handler th d w =
      let (r, m, w') = stop_unit (d.managers th.units) th.ended th.unit w in
      (r, store_manager th.units m d, w')

  unfoldable pub kill_handler : Handler → Driver → World → Rpc (Unit {0})
  kill_handler th d w =
      let (r, m, w') = kill_unit (d.managers th.units) th.ended th.unit w in
      (r, store_manager th.units m d, w')

  unfoldable pub handler_state : Handler → Driver → World → Result UnitState × World
  handler_state th d w = unit_state (d.managers th.units) th.ended th.unit w

  unfoldable pub force_kill_task : Handler → Driver → World → Rpc (Unit {0})
  force_kill_task th d w =
      let (r, d', w') = kill_handler th d w in
      elim r [
        | ok _ ↦ (ok tt, d', w')
        | err e ↦
            let (s, w'') = handler_state th d' w' in
            (if answers_terminal s then ok tt else err (wrap "kill unit" e), d', w'')
      ]

  -- The concurrent stop has returned.
  unfoldable pub stop_or_kill : Handler → Driver → World → Rpc (Unit {0})
  stop_or_kill th d w =
      let (r, d', w') = stop_handler th d w in
      elim r [ ok _ ↦ (ok tt, d', w') | err e ↦ force_kill_task th d' w' ]

  unfoldable pub await_stop : StopRace → Handler → Driver → World → Rpc (Unit {0})
  await_stop exit_seen th d w = (ok tt, d, w)
  await_stop stop_returned th d w = stop_or_kill th d w
  await_stop timed_out th d w = force_kill_task th d w

  unfoldable pub stop_task : String → ℤ → StopRace → Driver → World → Rpc (Unit {0})
  stop_task id timeout race d w = elim (lookup id d.tasks) [
    | none ↦ (err task_not_found, d, w)
    | some th ↦ if no_grace timeout then force_kill_task th d w else await_stop race th d w
  ]

  -- UnregisterUnit on the Driver's Manager, if there is one.
  unfoldable pub unregister : String → Driver → Driver
  unregister unit d = elim (get_manager d) [
    | err e ↦ d
    | ok k ↦ store_manager k (unregister_unit unit (d.managers k)) d
  ]

  -- DestroyTask after the unit has stopped: an error of the escalation is only logged. The Handler
  -- that Stop changes is the one that the Store still holds.
  unfoldable pub forget : String → Handler → Driver → Driver
  forget id th d =
      let d' = unregister th.unit (track id (stop th) d) in
      release_unit th.unit (record d' { tasks = delete id d'.tasks })

  unfoldable pub destroy_task : String → Bool → StopRace → Driver → World → Rpc (Unit {0})
  destroy_task id force race d w = elim (lookup id d.tasks) [
    | none ↦ (err task_not_found, d, w)
    | some th ↦
        if has_exited th
        then (ok tt, forget id th d, w)
        else if force
        then (let (r, d', w') = await_stop race th d w in (ok tt, forget id th d', w'))
        else (err (message "cannot destroy task"), d, w)
  ]

  unfoldable pub inspect_task : String → Driver → Result TaskStatus
  inspect_task id d = elim (lookup id d.tasks) [
    | none ↦ err task_not_found
    | some th ↦ ok (task_status th)
  ]

  -- What WaitTask's goroutine sends before it closes the channel: nothing if the caller's context
  -- ends first, and otherwise, once waitCh is closed, the exit result, or a clean exit without one.
  unfoldable pub deliver : Bool → Handler → Option ExitResult
  deliver true th = none
  deliver false th = elim (task_status th).exit_result [ none ↦ some clean_exit | some r ↦ some r ]

  unfoldable pub wait_task : Bool → String → Driver → Result (Option ExitResult)
  wait_task cancelled id d = elim (lookup id d.tasks) [
    | none ↦ err task_not_found
    | some th ↦ ok (deliver cancelled th)
  ]
