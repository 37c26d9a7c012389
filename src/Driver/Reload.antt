-- ===== src/Driver/Reload.antt =====
-- plugin/driver.go: SetConfig on a Driver that already has a Manager, as on a config reload. Handlers
-- keep the Manager that they were made with, which SetConfig stops.
use nomad_driver_systemd.Prelude.{subst, ℕ, ◌<◌, true, some, ◌≡◌, arith, inl, inr}
use nomad_driver_systemd.Errors.{ok, Result-cases}
use nomad_driver_systemd.Policy.{compile_unit_policy}
use nomad_driver_systemd.Host.{Host}
use nomad_driver_systemd.Manager.{Manager, shut, get_conn, op_context, property_timeout}
use nomad_driver_systemd.Manager
use nomad_driver_systemd.Manager.Contexts.{EndedCallsFail, unit_state-ended}
use nomad_driver_systemd.Manager.Steps as Managers
use nomad_driver_systemd.Manager.Lifetime.{Reach-Stopped}
use nomad_driver_systemd.Handler.{Handler, check_task_state}
use nomad_driver_systemd.Driver.{Driver}
use nomad_driver_systemd.Driver.Setup.{
  PluginSetup, set_config, replace_manager, stop_manager, configure_pprof, decode_setup,
}
use nomad_driver_systemd.Driver.Steps.{configure_pprof-frame}

module _ ⦃h : Host⦄ where
  open h use {World}

  check_task_state-shut_down :
      EndedCallsFail
      → (m : Manager) (th : Handler) (w : World) → m.shut_down ≡ true
      → (check_task_state m th w).1 ≡ th
  unfolding check_task_state
  check_task_state-shut_down ends m th w s =
      ground (arith, unit_state-ended ends m th.ended th.unit w (inr s))

  replace_manager-old :
      (d : Driver) (w : World) (k : ℕ)
      → d.systemd_mgr ≡ some k
      → k < d.next_manager
      → (replace_manager d w).0 ≡ ok tt
      → (replace_manager d w).1.managers k ≡ shut (d.managers k)
  unfolding replace_manager stop_manager Manager.stop
  replace_manager-old d w k e l r = ground arith

  -- A successful SetConfig stops the Manager that the Driver had.
  set_config-old :
      (setup : PluginSetup) (d : Driver) (w : World) (k : ℕ)
      → d.systemd_mgr ≡ some k
      → k < d.next_manager
      → (set_config setup d w).0 ≡ ok tt
      → (set_config setup d w).1.managers k ≡ shut (d.managers k)
  unfolding set_config
  set_config-old setup d w k e l r = elim (Result-cases (decode_setup setup)) [
    | inr (x, q) ↦ ground arith
    | inl (config, q) ↦
        elim (Result-cases
          (compile_unit_policy h.regexps config.allowed_units config.denied_units)) [
            | inr (x, p) ↦ ground arith
            | inl (policy, p) ↦
                let d1 : Driver = record d {
                  compute = some setup.compute;
                  unit_policy = some policy;
                } in
                let (c, d2, w2) = configure_pprof config.pprof_addr d1 w in
                ground
                  (arith, configure_pprof-frame config.pprof_addr d1 w, replace_manager-old d2 w2 k)
          ]
  ]

  -- If calls on DBus fail once their context has ended: after a SetConfig that succeeds on a Driver
  -- with a Manager made before, whatever critical sections of the old Manager follow, a check of a
  -- task through the old Manager leaves its Handler unchanged.
  pub set_config-check_task_state :
      EndedCallsFail
      → (setup : PluginSetup) (d : Driver) (w : World) (k : ℕ) → d.systemd_mgr ≡ some k
      → k < d.next_manager
      → (set_config setup d w).0 ≡ ok tt
      → (m : Manager) → Managers.Reach ((set_config setup d w).1.managers k) m
      → (th : Handler) (w' : World) → (check_task_state m th w').1 ≡ th
  set_config-check_task_state ends setup d w k e l r m history th w' =
      check_task_state-shut_down ends m th w'
        (Reach-Stopped (d.managers k)
          (subst (λ o. Managers.Reach o m) (set_config-old setup d w k e l r) history)).ended
