-- ===== src/Driver/Shutdown.antt =====
-- plugin/driver.go: Shutdown, and what the Driver still does after it.
use nomad_driver_systemd.Prelude.{
  ℕ, String, true, false, [], none, ◌≡◌, ◌∙◌, inl, inr, refl, arith, Option-cases,
}
use nomad_driver_systemd.Prelude.Map.{lookup}
use nomad_driver_systemd.Errors.{is_ok, Result-cases}
use nomad_driver_systemd.Config.{TaskConfig}
use nomad_driver_systemd.Host.{Host}
use nomad_driver_systemd.Manager.Contexts.{EndedCallsFail, unit_state-ended}
use nomad_driver_systemd.Driver.{Driver, get_manager, claim_unit}
use nomad_driver_systemd.Driver.Tasks.{
  NomadTask, TaskHandle, checked_config, new_task_handle, bring_up, start_claimed, claim_and_start,
  start_task,
}
use nomad_driver_systemd.Driver.Recovery.{recover_claimed, claim_and_recover, recover_task}
use nomad_driver_systemd.Driver.Setup.{stop_manager, stop_pprof}

-- How far the teardown goroutine is when Shutdown stops waiting for it: it has emptied the Store and
-- waits for handlers, or waits for the Manager, or is done. What is left goes on as steps of its own.
pub data Progress : Type 0 where
  not_begun stopping_handlers stopping_manager all_done : Progress

module _ ⦃h : Host⦄ where
  open h use {World}

  unfoldable pub teardown : Progress → Driver → World → Driver × World
  unfolding stop_manager stop_pprof
  teardown not_begun d w = (d, w)
  teardown stopping_handlers d w = (record d { tasks = [] }, w)
  teardown stopping_manager d w = stop_manager d.systemd_mgr (record d { tasks = [] }) w
  teardown all_done d w =
      let (d', w') = stop_manager d.systemd_mgr (record d { tasks = [] }) w in stop_pprof d' w'

  -- The context of the Driver is cancelled last, also when the teardown has run out of time.
  unfoldable pub shutdown : Progress → Driver → World → Driver × World
  shutdown progress d w = let (d', w') = teardown progress d w in (record d' { ended = true }, w')

  shutdown-ended : (p : Progress) (d : Driver) (w : World) → (shutdown p d w).0.ended ≡ true
  unfolding shutdown
  shutdown-ended p d w = refl

  module _ (fail : EndedCallsFail) where
    bring_up-ended :
        (k : ℕ) (unit : String) (d : Driver) (w : World)
        → d.ended ≡ true
        → is_ok (bring_up k unit d w).0 ≡ false
    unfolding bring_up
    bring_up-ended k unit d w e =
        ground (arith, unit_state-ended fail (d.managers k) d.ended unit w (inl e))

    start_claimed-ended :
        (k : ℕ) (cfg : NomadTask) (unit : String) (handle : TaskHandle) (d : Driver) (w : World)
        → d.ended ≡ true
        → is_ok (start_claimed k cfg unit handle d w).0 ≡ false
    unfolding start_claimed
    start_claimed-ended k cfg unit handle d w e = ground (arith, bring_up-ended k unit d w e)

    claim_unit-ended : (unit id : String) (d : Driver) → (claim_unit unit id d).1.ended ≡ d.ended
    unfolding claim_unit
    claim_unit-ended unit id d = ground arith

    claim_and_start-ended :
        (k : ℕ) (cfg : NomadTask) (tc : TaskConfig) (d : Driver) (w : World)
        → d.ended ≡ true
        → is_ok (claim_and_start k cfg tc d w).0 ≡ false
    unfolding claim_and_start
    claim_and_start-ended k cfg tc d w e = elim (Result-cases (claim_unit tc.unit cfg.id d).0) [
      | inr (x, q) ↦ rw (q, claim_and_start) refl
      | inl (u, q) ↦ elim (Result-cases (new_task_handle cfg tc)) [
        | inr (x, p) ↦ rw (q, claim_and_start) (rw p refl)
        | inl (handle, p) ↦
            rw (q, claim_and_start)
              (rw p (
                start_claimed-ended k cfg tc.unit handle (claim_unit tc.unit cfg.id d).1 w
                  (claim_unit-ended tc.unit cfg.id d ∙ e)))
      ]
    ]

    start_task-ended :
        (cfg : NomadTask) (d : Driver) (w : World)
        → d.ended ≡ true
        → is_ok (start_task cfg d w).0 ≡ false
    unfolding start_task
    start_task-ended cfg d w e = elim (Option-cases (lookup cfg.id d.tasks)) [
      | inr (th, t) ↦ rw (t, start_task) refl
      | inl n ↦ elim (Result-cases (checked_config cfg d)) [
        | inr (x, q) ↦ rw (n, start_task) (rw q refl)
        | inl (tc, q) ↦ elim (Result-cases (get_manager d)) [
          | inr (x, g) ↦ rw (n, start_task) (rw q (rw g refl))
          | inl (k, g) ↦ rw (n, start_task) (rw q (rw g (claim_and_start-ended k cfg tc d w e)))
        ]
      ]
    ]

    recover_claimed-ended :
        (k : ℕ) (id unit : String) (d : Driver) (w : World)
        → d.ended ≡ true
        → is_ok (recover_claimed k id unit d w).0 ≡ false
    unfolding recover_claimed
    recover_claimed-ended k id unit d w e =
        ground (arith, unit_state-ended fail (d.managers k) d.ended unit w (inl e))

    claim_and_recover-ended :
        (k : ℕ) (id unit : String) (d : Driver) (w : World)
        → d.ended ≡ true
        → is_ok (claim_and_recover k id unit d w).0 ≡ false
    unfolding claim_and_recover
    claim_and_recover-ended k id unit d w e = elim (Result-cases (claim_unit unit id d).0) [
      | inr (x, q) ↦ rw (q, claim_and_recover) refl
      | inl (u, q) ↦
          rw (q, claim_and_recover)
            (recover_claimed-ended k id unit (claim_unit unit id d).1 w
              (claim_unit-ended unit id d ∙ e))
    ]

    recover_task-ended :
        (handle : TaskHandle) (d : Driver) (w : World)
        → d.ended ≡ true
        → lookup handle.config.id d.tasks ≡ none
        → is_ok (recover_task handle d w).0 ≡ false
    unfolding recover_task
    recover_task-ended handle d w e n =
        elim (Result-cases (h.get_driver_state handle.driver_state)) [
          | inr (x, q) ↦ rw (n, recover_task) (rw q refl)
          | inl (tc, q) ↦ elim (Result-cases (get_manager d)) [
            | inr (x, g) ↦ rw (n, recover_task) (rw q (rw g refl))
            | inl (k, g) ↦
                rw (n, recover_task)
                  (rw q (rw g (claim_and_recover-ended k handle.config.id tc.unit d w e)))
          ]
        ]

    -- If calls on DBus fail once their context has ended: after Shutdown, however far its teardown
    -- got, StartTask fails, and so does RecoverTask of a task that is not tracked.
    pub shutdown-refuses :
        (p : Progress) (d : Driver) (w : World) (cfg : NomadTask) (handle : TaskHandle) (w' : World)
        → lookup handle.config.id (shutdown p d w).0.tasks ≡ none
        → (is_ok (start_task cfg (shutdown p d w).0 w').0 ≡ false)
          × (is_ok (recover_task handle (shutdown p d w).0 w').0 ≡ false)
    shutdown-refuses p d w cfg handle w' n =
        let e = shutdown-ended p d w in
        (
          start_task-ended cfg (shutdown p d w).0 w' e,
          recover_task-ended handle (shutdown p d w).0 w' e n,
        )
