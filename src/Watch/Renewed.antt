-- ===== src/Watch/Renewed.antt =====
-- plugin/driver.go: SetConfig keeps the Managers, or puts a new one, with no unit, in use.
use nomad_driver_systemd.Prelude.{
  ℕ, suc, none, some, ◌≡◌, refl, sym, ◌∙◌, ap, ◌⊎◌, inl, inr, arith, Bool-cases, Option-cases,
}
use nomad_driver_systemd.Prelude.Map.{lookup}
use nomad_driver_systemd.Errors.{Result-cases}
use nomad_driver_systemd.Host.{Host}
use nomad_driver_systemd.Policy.{compile_unit_policy}
use nomad_driver_systemd.Manager
use nomad_driver_systemd.Manager.{Manager, new_manager, shut, wake_channel, unit_locked, wake_unit}
use nomad_driver_systemd.Manager.Connect.{make_manager}
use nomad_driver_systemd.Driver.{Driver}
use nomad_driver_systemd.Driver.Setup.{
  PluginSetup, set_config, replace_manager, stop_manager, configure_pprof, decode_setup,
}
use nomad_driver_systemd.Driver.Works.{Works-same}
use nomad_driver_systemd.Driver.Channels.{nothing, Except-same}
use nomad_driver_systemd.Driver.Managing.{
  Managed, make_manager-ok, Works-Managed, configure_pprof-Works,
}
use nomad_driver_systemd.Driver.Steps.{configure_pprof-frame}
use nomad_driver_systemd.Watch.Listing.{Listing, Quiet-Listing}

-- The same Managers; or a new one, in use, that has no unit.
abbrev pub Renewed : Driver → Driver → Type 0
Renewed d e =
    ((e.managers ≡ d.managers)
      × (e.systemd_mgr ≡ d.systemd_mgr)
      × (e.next_manager ≡ d.next_manager))
    ⊎ ((c : ℕ) × (e.systemd_mgr ≡ some d.next_manager)
        × (e.managers d.next_manager ≡ new_manager c)
        × (e.next_manager ≡ suc d.next_manager))

pub Renewed-Listing : {d e : Driver} → e.tasks ≡ d.tasks → Renewed d e → Listing d → Listing e
unfolding new_manager wake_channel lookup
Renewed-Listing {d} {e} same (inl (m, u, n)) v =
    Quiet-Listing same (record { in_use = u; made = n }) (Except-same nothing d e m) v
Renewed-Listing {d} {e} same (inr (c, u, m, n)) v = record {
  held = λ id th t. ground (arith, n, v.held id th (ground (arith, same)));
  waits = λ id th k t g on. absurd (ground (arith, u, on, v.held id th (ground (arith, same))));
  known = λ k unit w g l.
      let used : k ≡ d.next_manager = ground (arith, u) in
      let empty : e.managers k ≡ new_manager c = ap e.managers used ∙ m in
      let nothing_there : wake_channel (e.managers k) unit ≡ none =
        ap (λ x. wake_channel x unit) empty in
      absurd (cc);
}

module _ ⦃h : Host⦄ where
  open h use {World}

  replace_manager-Renewed : (d : Driver) (w : World) → Managed d → Renewed d (replace_manager d w).1
  unfolding replace_manager stop_manager Manager.stop
  replace_manager-Renewed d w v = elim (Result-cases (make_manager w).0) [
    | inr (e, q) ↦ inl (ground arith, ground arith, ground arith)
    | inl (m, q) ↦
        let (c, new) = make_manager-ok w m q in
        elim (Option-cases d.systemd_mgr) [
          | inl n ↦ inr (c, ground arith, ground arith, ground arith)
          | inr (k, n) ↦ inr (c, ground arith, ground (arith, v.in_use k n), ground arith)
        ]
  ]

  Renewed-rebase :
      (d d' e : Driver)
      → d'.managers ≡ d.managers
      → d'.systemd_mgr ≡ d.systemd_mgr
      → d'.next_manager ≡ d.next_manager
      → Renewed d' e
      → Renewed d e
  Renewed-rebase d d' e m u n (inl (a, b, c)) = inl (a ∙ m, b ∙ u, c ∙ n)
  Renewed-rebase d d' e m u n (inr (c, a, b, x)) =
      inr (c, a ∙ ap some n, ap e.managers (sym n) ∙ b, x ∙ ap suc n)

  pub set_config-Renewed :
      (setup : PluginSetup) (d : Driver) (w : World)
      → Managed d
      → Renewed d (set_config setup d w).1
  unfolding set_config
  set_config-Renewed setup d w v = elim (Result-cases (decode_setup setup)) [
    | inr (x, q) ↦ rw (q, set_config) (inl (refl, refl, refl))
    | inl (config, q) ↦ elim (Bool-cases setup.has_agent_config) [
      | inr a ↦ rw (q, set_config) (rw a (inl (refl, refl, refl)))
      | inl a ↦
          elim (Result-cases
            (compile_unit_policy h.regexps config.allowed_units config.denied_units)) [
              | inr (x, p) ↦ rw (q, set_config) (rw a (rw p (inl (refl, refl, refl))))
              | inl (policy, p) ↦
                  let d1 : Driver = record d {
                    compute = some setup.compute;
                    unit_policy = some policy;
                  } in
                  let (_, d2, w2) = configure_pprof config.pprof_addr d1 w in
                  let (_, _, u, m, n) = configure_pprof-frame config.pprof_addr d1 w in
                  let v2 : Managed d2 =
                    Works-Managed (configure_pprof-Works config.pprof_addr d1 w)
                      (Works-Managed (Works-same d d1 refl refl refl) v) in
                  elim (Result-cases (configure_pprof config.pprof_addr d1 w).0) [
                    | inr (x, o) ↦ rw (q, set_config) (rw a (rw p (rw o (inl (m, u, n)))))
                    | inl (t, o) ↦
                        rw (q, set_config)
                          (rw a (
                            rw p (
                              rw o (
                                Renewed-rebase d d2 (replace_manager d2 w2).1 m u n
                                  (replace_manager-Renewed d2 w2 v2)))))
                  ]
            ]
    ]
  ]
