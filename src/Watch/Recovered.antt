-- ===== src/Watch/Recovered.antt =====
-- plugin/task.go: RecoverTask leaves a task that is watched from its first look on.
use nomad_driver_systemd.Prelude.{subst, ℕ, String, none, some, ◌≡◌, ◌∙◌, inl, inr, arith}
use nomad_driver_systemd.Prelude.Map.{lookup}
use nomad_driver_systemd.Errors.{ok, Result-cases}
use nomad_driver_systemd.Units.{UnitState, TaskState, to_task_state}
use nomad_driver_systemd.Host.{Host}
use nomad_driver_systemd.Manager.{register_unit}
use nomad_driver_systemd.Manager.Steps as Managers
use nomad_driver_systemd.Handler.{Handler, new_handler, set_started_at, set_exit_result}
use nomad_driver_systemd.Driver.{Driver, put, claim_unit, get_manager}
use nomad_driver_systemd.Driver.Tasks.{TaskHandle, adopt, launch}
use nomad_driver_systemd.Driver.Claims.{claim_unit-ok}
use nomad_driver_systemd.Manager.Jobs.{unit_state}
use nomad_driver_systemd.Driver.Recovery.{
  recovered_state, recover_start_time, recover_exit, recover_claimed, claim_and_recover,
  recover_task,
}
use nomad_driver_systemd.Driver.Recovering.{recovered-Sound}
use nomad_driver_systemd.Watch.Registered.{Listed, register_unit-Listed, Watched, launch-Watched}

module _ ⦃h : Host⦄ where
  open h use {World}

  -- What the Handler watches, which no later step of RecoverTask changes.
  abbrev SameWatch : Handler → Handler → Type 0
  SameWatch a b = (a.unit ≡ b.unit) × (a.units ≡ b.units) × (a.wake_ch ≡ b.wake_ch)

  recover_start_time-SameWatch :
      (k : ℕ) (th : Handler) (d : Driver) (w : World) → SameWatch (recover_start_time k th d w).0 th
  unfolding recover_start_time set_started_at
  recover_start_time-SameWatch k th d w = ground arith

  recover_exit-SameWatch :
      (k : ℕ) (s : UnitState) (th : Handler) (d : Driver) (w : World)
      → SameWatch (recover_exit k s th d w).0 th
  unfolding recover_exit set_exit_result
  recover_exit-SameWatch k s th d w = ground arith

  adopt-Listed :
      (k : ℕ) (id unit : String) (state : TaskState) (d : Driver) (w : World)
      → Managers.Wakes (d.managers k)
      → let (th, d', _) = adopt k id unit state d w in
        (th.unit ≡ unit)
        × (th.units ≡ k)
        × (th.wake_ch ≡ some (d.managers k).next_wake)
        × Listed (d.managers k).next_wake unit (d'.managers k)
  unfolding adopt new_handler
  adopt-Listed k id unit state d w v =
      let (wakes, channel) = register_unit-Listed d.ended unit (d.managers k) w v in
      let m = (register_unit d.ended unit (d.managers k) w).0 in
      let here : put d.managers k m k ≡ m = ground arith in
      (ground arith, ground arith, ground (arith, channel), (rw here wakes, rw here channel))

  recover_claimed-Watched :
      (k : ℕ) (id unit : String) (d : Driver) (w : World)
      → Managers.Wakes (d.managers k)
      → (recover_claimed k id unit d w).0 ≡ ok tt
      → Watched id k (recover_claimed k id unit d w).1
  unfolding recover_claimed
  recover_claimed-Watched k id unit d w v o =
      elim (Result-cases (unit_state (d.managers k) d.ended unit w).0) [
        | inr (e, q) ↦ absurd (ground arith)
        | inl (s, q) ↦
            let w1 = (unit_state (d.managers k) d.ended unit w).1 in
            let (th, d2, w2) = adopt k id unit (recovered_state (to_task_state s)) d w1 in
            let (th3, w3) = recover_start_time k th d2 w2 in
            let (th4, w4) = recover_exit k s th3 d2 w3 in
            let (g0, g1, g2, g3) =
              adopt-Listed k id unit (recovered_state (to_task_state s)) d w1 v in
            let (a0, a1, a2) = recover_start_time-SameWatch k th d2 w2 in
            let (b0, b1, b2) = recover_exit-SameWatch k s th3 d2 w3 in
            let on : th4.units ≡ k = b1 ∙ a1 ∙ g1 in
            let its : th4.unit ≡ unit = b0 ∙ a0 ∙ g0 in
            rw (q, recover_claimed)
              (subst (λ n. Watched id n (launch id th4 d2 w4).0) on
                (launch-Watched id th4 (d.managers k).next_wake d2 w4 (b2 ∙ a2 ∙ g2)
                  (rw on (rw its g3)) (recovered-Sound k id unit s d d2 w1 w2 w3)))
      ]

  claim_and_recover-Watched :
      (k : ℕ) (id unit : String) (d : Driver) (w : World)
      → Managers.Wakes (d.managers k)
      → (claim_and_recover k id unit d w).0 ≡ ok tt
      → Watched id k (claim_and_recover k id unit d w).1
  unfolding claim_and_recover
  claim_and_recover-Watched k id unit d w v o = elim (Result-cases (claim_unit unit id d).0) [
    | inr (e, q) ↦ absurd (ground arith)
    | inl (u, q) ↦
        let d' = (claim_unit unit id d).1 in
        let same : d'.managers ≡ d.managers = ground (arith, claim_unit-ok unit id d) in
        rw (q, claim_and_recover)
          (recover_claimed-Watched k id unit d' w (rw same v) (ground arith))
  ]

  -- A RecoverTask that succeeds for a task that was not tracked, on a Manager k whose units share no
  -- wake channels, leaves the task tracked with a Handler on k that is sound, and whose unit k has
  -- registered with a channel of its own, which is the one that the Handler waits for.
  pub recover_task-Watched :
      (handle : TaskHandle) (d : Driver) (w : World) (k : ℕ)
      → lookup handle.config.id d.tasks ≡ none
      → d.systemd_mgr ≡ some k
      → Managers.Wakes (d.managers k)
      → (recover_task handle d w).0 ≡ ok tt
      → Watched handle.config.id k (recover_task handle d w).1
  unfolding recover_task get_manager
  recover_task-Watched handle d w k n g v o =
      elim (Result-cases (h.get_driver_state handle.driver_state)) [
        | inr (e, q) ↦ absurd (ground arith)
        | inl (tc, q) ↦
            rw (n, recover_task)
              (rw q
                (rw g (claim_and_recover-Watched k handle.config.id tc.unit d w v (ground arith))))
      ]
