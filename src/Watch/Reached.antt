-- ===== src/Watch/Reached.antt =====
-- plugin/task.go: the tasks that StartTask and RecoverTask leave on a Driver in use.
use nomad_driver_systemd.Prelude.{ℕ, none, some, ◌≡◌, ◌≢◌, true, inl, inr, arith, Option-cases}
use nomad_driver_systemd.Prelude.Map.{lookup}
use nomad_driver_systemd.Errors.{is_ok, Result-cases}
use nomad_driver_systemd.Host.{Host}
use nomad_driver_systemd.Manager.{Manager}
use nomad_driver_systemd.Manager.Steps as Managers
use nomad_driver_systemd.Driver.{Driver, new_driver, get_manager}
use nomad_driver_systemd.Driver.Tasks.{NomadTask, TaskHandle, checked_config, start_task}
use nomad_driver_systemd.Driver.Recovery.{recover_task}
use nomad_driver_systemd.Driver.Managing.{Managed, Reach-Managed}
use nomad_driver_systemd.Driver.Steps as Drivers
use nomad_driver_systemd.Watch.Registered.{Watched}
use nomad_driver_systemd.Watch.Started.{start_task-Watched}
use nomad_driver_systemd.Watch.Recovered.{recover_task-Watched}

pub Managed-Wakes :
    {d : Driver} (k : ℕ) → Managed d → d.systemd_mgr ≡ some k → Managers.Wakes (d.managers k)
Managed-Wakes k v g = let (c, r) = v.lived k (v.in_use k g) in Managers.Reach-Wakes c r

module _ ⦃h : Host⦄ where
  open h use {World}

  start_task-managed :
      (cfg : NomadTask) (d : Driver) (w : World)
      → is_ok (start_task cfg d w).0 ≡ true
      → d.systemd_mgr ≢ none
  unfolding start_task get_manager
  start_task-managed cfg d w o n = elim (Option-cases (lookup cfg.id d.tasks)) [
    | inr (th, t) ↦ ground arith
    | inl m ↦ elim (Result-cases (checked_config cfg d)) [
      | inr (e, q) ↦ ground arith
      | inl (tc, q) ↦ ground arith
    ]
  ]

  recover_task-managed :
      (handle : TaskHandle) (d : Driver) (w : World)
      → lookup handle.config.id d.tasks ≡ none
      → is_ok (recover_task handle d w).0 ≡ true
      → d.systemd_mgr ≢ none
  unfolding recover_task get_manager
  recover_task-managed handle d w m o n =
      elim (Result-cases (h.get_driver_state handle.driver_state)) [
        | inr (e, q) ↦ ground arith
        | inl (tc, q) ↦ ground arith
      ]

  -- On a Driver reached from New, by any sequence of RPCs, polls of tasks and background work: a
  -- StartTask that succeeds leaves the task tracked with a Handler on the Manager in use that is
  -- sound, and whose unit that Manager has registered with a channel of its own, which is the one
  -- that the Handler waits for: the task is watched from its first look on.
  pub start_task-Reach :
      (ms : ℕ → Manager) (cfg : NomadTask) {d : Driver} (w : World)
      → Drivers.Reach (new_driver ms) d
      → is_ok (start_task cfg d w).0 ≡ true
      → (k : ℕ) × (d.systemd_mgr ≡ some k) × Watched cfg.id k (start_task cfg d w).1
  start_task-Reach ms cfg {d} w r o = elim (Option-cases d.systemd_mgr) [
    | inl n ↦ absurd (start_task-managed cfg d w o n)
    | inr (k, g) ↦ elim (Result-cases (start_task cfg d w).0) [
      | inr (e, q) ↦ absurd (ground arith)
      | inl (handle, q) ↦
          (k, g, start_task-Watched cfg d w k handle g (Managed-Wakes k (Reach-Managed ms r) g) q)
    ]
  ]

  -- On a Driver reached from New, by any sequence of RPCs, polls of tasks and background work: a
  -- RecoverTask that succeeds for a task that was not tracked leaves it tracked with a Handler on the
  -- Manager in use that is sound, and whose unit that Manager has registered with a channel of its
  -- own, which is the one that the Handler waits for.
  pub recover_task-Reach :
      (ms : ℕ → Manager) (handle : TaskHandle) {d : Driver} (w : World)
      → Drivers.Reach (new_driver ms) d
      → lookup handle.config.id d.tasks ≡ none
      → is_ok (recover_task handle d w).0 ≡ true
      → (k : ℕ) × (d.systemd_mgr ≡ some k) × Watched handle.config.id k (recover_task handle d w).1
  recover_task-Reach ms handle {d} w r n o = elim (Option-cases d.systemd_mgr) [
    | inl m ↦ absurd (recover_task-managed handle d w n o m)
    | inr (k, g) ↦ elim (Result-cases (recover_task handle d w).0) [
      | inr (e, q) ↦ absurd (ground arith)
      | inl (u, q) ↦
          (k, g, recover_task-Watched handle d w k n g (Managed-Wakes k (Reach-Managed ms r) g) q)
    ]
  ]
