-- ===== src/Watch/Started.antt =====
-- plugin/task.go: StartTask leaves a task that is watched from its first look on.
use nomad_driver_systemd.Prelude.{ℕ, String, true, some, ◌≡◌, inl, inr, arith, Option-cases}
use nomad_driver_systemd.Prelude.Map.{lookup}
use nomad_driver_systemd.Errors.{ok, Result-cases}
use nomad_driver_systemd.Config.{TaskConfig}
use nomad_driver_systemd.Units.{UnitState, running}
use nomad_driver_systemd.Host.{Host}
use nomad_driver_systemd.Manager.Steps as Managers
use nomad_driver_systemd.Handler.{new_handler}
use nomad_driver_systemd.Handler.Exit.{Section-Sound, watches, new_handler-Sound}
use nomad_driver_systemd.Driver.{Driver, claim_unit, get_manager}
use nomad_driver_systemd.Driver.Tasks.{
  NomadTask, TaskHandle, bring_up, adopt, launch, start_claimed, claim_and_start, start_task,
  checked_config, new_task_handle,
}
use nomad_driver_systemd.Driver.Handles.{start_claimed-handle}
use nomad_driver_systemd.Driver.Claims.{claim_unit-ok}
use nomad_driver_systemd.Watch.Registered.{register_unit-Listed, Watched, launch-Watched}

module _ ⦃h : Host⦄ where
  open h use {World}

  adopt-Watched :
      (k : ℕ) (id unit : String) (d : Driver) (w : World)
      → Managers.Wakes (d.managers k)
      → let (th, d', w') = adopt k id unit running d w in Watched id k (launch id th d' w').0
  unfolding adopt new_handler
  adopt-Watched k id unit d w v =
      let (th, d', w') = adopt k id unit running d w in
      let (wakes, channel) = register_unit-Listed d.ended unit (d.managers k) w v in
      launch-Watched id th (d.managers k).next_wake d' w' channel
        (ground (arith, wakes), ground (arith, channel))
        (Section-Sound (watches true) (new_handler-Sound id unit k _ running _ (λ e. cc)))

  bring_up-ok :
      (k : ℕ) (unit : String) (d : Driver) (w : World) (s : UnitState)
      → (bring_up k unit d w).0 ≡ ok s
      → (bring_up k unit d w).1 ≡ d
  unfolding bring_up
  bring_up-ok k unit d w s e = ground arith

  start_claimed-Watched :
      (k : ℕ) (cfg : NomadTask) (unit : String) (handle : TaskHandle) (d : Driver) (w : World)
      → Managers.Wakes (d.managers k)
      → (start_claimed k cfg unit handle d w).0 ≡ ok handle
      → Watched cfg.id k (start_claimed k cfg unit handle d w).1
  unfolding start_claimed
  start_claimed-Watched k cfg unit handle d w v o = elim (Result-cases (bring_up k unit d w).0) [
    | inr (e, q) ↦ absurd (ground arith)
    | inl (s, q) ↦
        rw (q, start_claimed)
          (rw (bring_up-ok k unit d w s q)
            (adopt-Watched k cfg.id unit d (bring_up k unit d w).2 v))
  ]

  claim_and_start-Watched :
      (k : ℕ) (cfg : NomadTask) (tc : TaskConfig) (handle : TaskHandle) (d : Driver) (w : World)
      → Managers.Wakes (d.managers k)
      → (claim_and_start k cfg tc d w).0 ≡ ok handle
      → Watched cfg.id k (claim_and_start k cfg tc d w).1
  unfolding claim_and_start
  claim_and_start-Watched k cfg tc handle d w v o =
      elim (Result-cases (claim_unit tc.unit cfg.id d).0) [
        | inr (e, q) ↦ absurd (ground arith)
        | inl (u, q) ↦ elim (Result-cases (new_task_handle cfg tc)) [
          | inr (e, p) ↦ absurd (ground arith)
          | inl (made, p) ↦
              let d' = (claim_unit tc.unit cfg.id d).1 in
              let same : d'.managers ≡ d.managers =
                ground (arith, claim_unit-ok tc.unit cfg.id d) in
              let r : (start_claimed k cfg tc.unit made d' w).0 ≡ ok made =
                ground (arith, start_claimed-handle k cfg tc.unit made handle d' w) in
              rw (q, claim_and_start)
                (rw p (start_claimed-Watched k cfg tc.unit made d' w (rw same v) r))
        ]
      ]

  -- A StartTask that succeeds, on a Manager k whose units share no wake channels, leaves the task
  -- tracked with a Handler on k that is sound, and whose unit k has registered with a channel of its
  -- own, which is the one that the Handler waits for: the task is watched from its first look on.
  pub start_task-Watched :
      (cfg : NomadTask) (d : Driver) (w : World) (k : ℕ) (handle : TaskHandle)
      → d.systemd_mgr ≡ some k
      → Managers.Wakes (d.managers k)
      → (start_task cfg d w).0 ≡ ok handle
      → Watched cfg.id k (start_task cfg d w).1
  unfolding start_task get_manager
  start_task-Watched cfg d w k handle g v o = elim (Option-cases (lookup cfg.id d.tasks)) [
    | inr (th, t) ↦ absurd (ground arith)
    | inl n ↦ elim (Result-cases (checked_config cfg d)) [
      | inr (e, q) ↦ absurd (ground arith)
      | inl (tc, q) ↦
          rw (n, start_task)
            (rw q (rw g (claim_and_start-Watched k cfg tc handle d w v (ground arith))))
    ]
  ]
