-- ===== src/Driver/Works/Rpcs.antt =====
-- plugin/task.go: what the RPCs do to the Managers.
use nomad_driver_systemd.Prelude.{ℕ, String, Bool, refl, inl, inr, Bool-cases, Option-cases}
use nomad_driver_systemd.Prelude.Int.{ℤ}
use nomad_driver_systemd.Prelude.Map.{lookup, delete}
use nomad_driver_systemd.Errors.{Result-cases}
use nomad_driver_systemd.Config.{TaskConfig}
use nomad_driver_systemd.Units.{to_task_state, running}
use nomad_driver_systemd.Host.{Host}
use nomad_driver_systemd.Manager.Jobs.{unit_state, kill_unit}
use nomad_driver_systemd.Manager.Steps as Managers
use nomad_driver_systemd.Manager.Sections.{stop_unit-Reach, kill_unit-Reach}
use nomad_driver_systemd.Handler.{Handler, has_exited, stop}
use nomad_driver_systemd.Driver.{Driver, claim_unit, get_manager}
use nomad_driver_systemd.Driver.Tasks.{
  NomadTask, TaskHandle, checked_config, new_task_handle, bring_up, adopt, start_claimed,
  claim_and_start, start_task, track,
}
use nomad_driver_systemd.Driver.Recovery.{
  recovered_state, recover_start_time, recover_exit, recover_claimed, claim_and_recover,
  recover_task,
}
use nomad_driver_systemd.Driver.Teardown.{
  StopRace, exit_seen, stop_returned, timed_out, no_grace, stop_handler, kill_handler,
  force_kill_task, stop_or_kill, await_stop, stop_task, unregister, forget, destroy_task,
}
use nomad_driver_systemd.Driver.Works.{
  Works, Works-refl, Works-trans, Works-same, store_manager-Works, claim_unit-Works,
  release_unit-Works, track-Works, bring_up-Works, adopt-Works, launch-Works,
}

module _ ⦃h : Host⦄ where
  open h use {World}

  start_claimed-Works :
      (k : ℕ) (cfg : NomadTask) (unit : String) (handle : TaskHandle) (d : Driver) (w : World)
      → Works d (start_claimed k cfg unit handle d w).1
  unfolding start_claimed
  start_claimed-Works k cfg unit handle d w =
      let (_, d', w') = bring_up k unit d w in
      let up = bring_up-Works k unit d w in
      elim (Result-cases (bring_up k unit d w).0) [
        | inr (e, q) ↦ rw (q, start_claimed) (Works-trans up (release_unit-Works unit d'))
        | inl (s, q) ↦
            let (th, d2, w2) = adopt k cfg.id unit running d' w' in
            rw (q, start_claimed)
              (Works-trans up (
                Works-trans (adopt-Works k cfg.id unit running d' w')
                  (launch-Works cfg.id th d2 w2)))
      ]

  claim_and_start-Works :
      (k : ℕ) (cfg : NomadTask) (tc : TaskConfig) (d : Driver) (w : World)
      → Works d (claim_and_start k cfg tc d w).1
  unfolding claim_and_start
  claim_and_start-Works k cfg tc d w =
      let d' = (claim_unit tc.unit cfg.id d).1 in
      let claims = claim_unit-Works tc.unit cfg.id d in
      elim (Result-cases (claim_unit tc.unit cfg.id d).0) [
        | inr (e, q) ↦ rw (q, claim_and_start) claims
        | inl (u, q) ↦ elim (Result-cases (new_task_handle cfg tc)) [
          | inr (e, p) ↦
              rw (q, claim_and_start) (rw p (Works-trans claims (release_unit-Works tc.unit d')))
          | inl (handle, p) ↦
              rw (q, claim_and_start)
                (rw p (Works-trans claims (start_claimed-Works k cfg tc.unit handle d' w)))
        ]
      ]

  pub start_task-Works : (cfg : NomadTask) (d : Driver) (w : World) → Works d (start_task cfg d w).1
  unfolding start_task
  start_task-Works cfg d w = elim (Option-cases (lookup cfg.id d.tasks)) [
    | inr (th, t) ↦ rw (t, start_task) (Works-refl d)
    | inl n ↦ elim (Result-cases (checked_config cfg d)) [
      | inr (e, c) ↦ rw (n, start_task) (rw c (Works-refl d))
      | inl (tc, c) ↦ elim (Result-cases (get_manager d)) [
        | inr (e, g) ↦ rw (n, start_task) (rw c (rw g (Works-refl d)))
        | inl (k, g) ↦ rw (n, start_task) (rw c (rw g (claim_and_start-Works k cfg tc d w)))
      ]
    ]
  ]

  recover_claimed-Works :
      (k : ℕ) (id unit : String) (d : Driver) (w : World)
      → Works d (recover_claimed k id unit d w).1
  unfolding recover_claimed
  recover_claimed-Works k id unit d w =
      elim (Result-cases (unit_state (d.managers k) d.ended unit w).0) [
        | inr (e, q) ↦ rw (q, recover_claimed) (release_unit-Works unit d)
        | inl (s, q) ↦
            let w1 = (unit_state (d.managers k) d.ended unit w).1 in
            let (th, d2, w2) = adopt k id unit (recovered_state (to_task_state s)) d w1 in
            let (th3, w3) = recover_start_time k th d2 w2 in
            let (th4, w4) = recover_exit k s th3 d2 w3 in
            rw (q, recover_claimed)
              (Works-trans (adopt-Works k id unit (recovered_state (to_task_state s)) d w1)
                (launch-Works id th4 d2 w4))
      ]

  claim_and_recover-Works :
      (k : ℕ) (id unit : String) (d : Driver) (w : World)
      → Works d (claim_and_recover k id unit d w).1
  unfolding claim_and_recover
  claim_and_recover-Works k id unit d w =
      let d' = (claim_unit unit id d).1 in
      let claims = claim_unit-Works unit id d in
      elim (Result-cases (claim_unit unit id d).0) [
        | inr (e, q) ↦ rw (q, claim_and_recover) claims
        | inl (u, q) ↦
            rw (q, claim_and_recover) (Works-trans claims (recover_claimed-Works k id unit d' w))
      ]

  pub recover_task-Works :
      (handle : TaskHandle) (d : Driver) (w : World) → Works d (recover_task handle d w).1
  unfolding recover_task
  recover_task-Works handle d w = elim (Option-cases (lookup handle.config.id d.tasks)) [
    | inr (th, t) ↦ rw (t, recover_task) (Works-refl d)
    | inl n ↦ elim (Result-cases (h.get_driver_state handle.driver_state)) [
      | inr (e, c) ↦ rw (n, recover_task) (rw c (Works-refl d))
      | inl (tc, c) ↦ elim (Result-cases (get_manager d)) [
        | inr (e, g) ↦ rw (n, recover_task) (rw c (rw g (Works-refl d)))
        | inl (k, g) ↦
            rw (n, recover_task)
              (rw c (rw g (claim_and_recover-Works k handle.config.id tc.unit d w)))
      ]
    ]
  ]

  stop_handler-Works : (th : Handler) (d : Driver) (w : World) → Works d (stop_handler th d w).1
  unfolding stop_handler
  stop_handler-Works th d w =
      store_manager-Works th.units _ d (stop_unit-Reach (d.managers th.units) th.ended th.unit w)

  force_kill_task-Works :
      (th : Handler) (d : Driver) (w : World) → Works d (force_kill_task th d w).1
  unfolding force_kill_task kill_handler
  force_kill_task-Works th d w =
      let killed =
        store_manager-Works th.units _ d
          (kill_unit-Reach (d.managers th.units) th.ended th.unit w) in
      elim (Result-cases (kill_unit (d.managers th.units) th.ended th.unit w).0) [
        | inl (u, q) ↦ rw (q, force_kill_task, kill_handler) killed
        | inr (e, q) ↦ rw (q, force_kill_task, kill_handler) killed
      ]

  stop_or_kill-Works : (th : Handler) (d : Driver) (w : World) → Works d (stop_or_kill th d w).1
  unfolding stop_or_kill
  stop_or_kill-Works th d w = elim (Result-cases (stop_handler th d w).0) [
    | inl (u, q) ↦ rw (q, stop_or_kill) (stop_handler-Works th d w)
    | inr (e, q) ↦
        rw (q, stop_or_kill)
          (Works-trans (stop_handler-Works th d w) (force_kill_task-Works th _ _))
  ]

  await_stop-Works :
      (race : StopRace) (th : Handler) (d : Driver) (w : World) → Works d (await_stop race th d w).1
  unfolding await_stop
  await_stop-Works exit_seen th d w = Works-refl d
  await_stop-Works stop_returned th d w = stop_or_kill-Works th d w
  await_stop-Works timed_out th d w = force_kill_task-Works th d w

  pub stop_task-Works :
      (id : String) (timeout : ℤ) (race : StopRace) (d : Driver) (w : World)
      → Works d (stop_task id timeout race d w).1
  unfolding stop_task
  stop_task-Works id timeout race d w = elim (Option-cases (lookup id d.tasks)) [
    | inl n ↦ rw (n, stop_task) (Works-refl d)
    | inr (th, t) ↦ elim (Bool-cases (no_grace timeout)) [
      | inl g ↦ rw (t, stop_task) (rw g (force_kill_task-Works th d w))
      | inr g ↦ rw (t, stop_task) (rw g (await_stop-Works race th d w))
    ]
  ]

  unregister-Works : (unit : String) (d : Driver) → Works d (unregister unit d)
  unfolding unregister
  unregister-Works unit d = elim (Result-cases (get_manager d)) [
    | inr (e, g) ↦ rw (g, unregister) (Works-refl d)
    | inl (k, g) ↦
        rw (g, unregister)
          (store_manager-Works k _ d (Managers.next Managers.here (Managers.unregisters unit)))
  ]

  forget-Works : (id : String) (th : Handler) (d : Driver) → Works d (forget id th d)
  unfolding forget
  forget-Works id th d =
      let d1 = track id (stop th) d in
      let d2 = unregister th.unit d1 in
      let d3 : Driver = record d2 { tasks = delete id d2.tasks } in
      Works-trans (track-Works id (stop th) d) (
        Works-trans (unregister-Works th.unit d1)
          (Works-trans (Works-same d2 d3 refl refl refl) (release_unit-Works th.unit d3)))

  pub destroy_task-Works :
      (id : String) (force : Bool) (race : StopRace) (d : Driver) (w : World)
      → Works d (destroy_task id force race d w).1
  unfolding destroy_task
  destroy_task-Works id force race d w = elim (Option-cases (lookup id d.tasks)) [
    | inl t ↦ rw (t, destroy_task) (Works-refl d)
    | inr (th, t) ↦ elim (Bool-cases (has_exited th)) [
      | inl x ↦ rw (t, destroy_task) (rw x (forget-Works id th d))
      | inr x ↦ elim (Bool-cases force) [
        | inr o ↦ rw (t, destroy_task) (rw x (rw o (Works-refl d)))
        | inl o ↦
            rw (t, destroy_task)
              (rw x (
                rw o (
                  Works-trans (await_stop-Works race th d w)
                    (forget-Works id th (await_stop race th d w).1))))
      ]
    ]
  ]
