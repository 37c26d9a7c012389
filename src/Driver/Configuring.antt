-- ===== src/Driver/Configuring.antt =====
-- plugin/driver.go: every outcome of SetConfig.
use nomad_driver_systemd.Prelude.{
  ap, ℕ, ◌<◌, ◌==◌, String, Bool, true, false, none, some, ◌≡◌, ◌≢◌, ◌⊎◌, eq_iff, Option-cases,
  refl, inl, inr, arith, ◌=?◌, if◌then◌else◌, Bool-cases, ◌∙◌,
}
use nomad_driver_systemd.Errors.{ok, err, wrap, is_ok, Result-cases}
use nomad_driver_systemd.Config.{Config}
use nomad_driver_systemd.Policy.{UnitPolicy, compile_unit_policy}
use nomad_driver_systemd.Host.{Host}
use nomad_driver_systemd.Manager.{shut, new_manager}
use nomad_driver_systemd.Manager
use nomad_driver_systemd.Manager.Connect.{make_manager}
use nomad_driver_systemd.Driver.{Driver}
use nomad_driver_systemd.Driver.Setup.{
  PluginSetup, decode_setup, start_pprof, stop_pprof, configure_pprof, stop_manager,
  replace_manager, set_config,
}
use nomad_driver_systemd.Driver.Tasks.{Rpc}
use nomad_driver_systemd.Driver.Ownership.{Same}
use nomad_driver_systemd.Driver.Steps.{configure_pprof-frame, set_config-Same}

-- The Managers and which of them the Driver uses are as before.
abbrev pub Kept : Driver → Driver → Type 0
Kept d e = (e.systemd_mgr ≡ d.systemd_mgr) × (e.managers ≡ d.managers)

abbrev pub in_use : ℕ → Driver → Bool
in_use k d = elim d.systemd_mgr [ none ↦ false | some j ↦ k == j ]

-- The Driver has a new Manager. Of the Managers before it, here k, the one in use is stopped.
abbrev pub Replaced : ℕ → Driver → Driver → Type 0
Replaced k d e =
    (e.systemd_mgr ≡ some d.next_manager)
    × (e.managers k ≡ (if in_use k d then shut (d.managers k) else d.managers k))

Replaced-rebase :
    (d d' e : Driver) (k : ℕ)
    → d'.systemd_mgr ≡ d.systemd_mgr
    → d'.managers ≡ d.managers
    → d'.next_manager ≡ d.next_manager
    → Replaced k d' e
    → Replaced k d e
Replaced-rebase d d' e k s m x (new, older) = (
  new ∙ ap some x,
  older
      ∙ ap
          (λ o.
            if elim o [ none ↦ false | some j ↦ k == j ]
            then shut (d'.managers k)
            else d'.managers k)
          s
      ∙ ap (λ f. if in_use k d then shut (f k) else f k) m,
)

module _ ⦃h : Host⦄ where
  open h use {World}

  replace_manager_cases :
      (d : Driver) (w : World) (k : ℕ)
      → k < d.next_manager
      → ((is_ok (replace_manager d w).0 ≡ false) × ((replace_manager d w).1 ≡ d))
        ⊎ (((replace_manager d w).0 ≡ ok tt) × Replaced k d (replace_manager d w).1)
  unfolding replace_manager stop_manager Manager.stop
  replace_manager_cases d w k l = elim (Result-cases (make_manager w).0) [
    | inr (e, q) ↦ inl (rw (q, is_ok, replace_manager) refl, rw (q, replace_manager) refl)
    | inl (m, q) ↦ inr (ground arith, (ground arith, ground arith))
  ]

  configure_pprof-pprof :
      (addr : String) (d : Driver) (w : World)
      → d.pprof ≢ some ""
      → (configure_pprof addr d w).0 ≡ ok tt
      → (configure_pprof addr d w).1.pprof ≡ (if addr =? "" then none else some addr)
  unfolding configure_pprof start_pprof stop_pprof
  configure_pprof-pprof addr d w n e = elim (Option-cases d.pprof) [
    | inl p ↦ ground arith
    | inr (current, p) ↦ ground (arith, eq_iff current addr, eq_iff addr "")
  ]

  configure_pprof-policy :
      (addr : String) (d : Driver) (w : World)
      → ((configure_pprof addr d w).1.unit_policy ≡ d.unit_policy)
        × ((configure_pprof addr d w).1.compute ≡ d.compute)
  unfolding configure_pprof start_pprof stop_pprof
  configure_pprof-policy addr d w = (ground arith, ground arith)

  replace_manager-frame :
      (d : Driver) (w : World)
      → ((replace_manager d w).1.unit_policy ≡ d.unit_policy)
        × ((replace_manager d w).1.compute ≡ d.compute)
        × ((replace_manager d w).1.pprof ≡ d.pprof)
  unfolding replace_manager stop_manager
  replace_manager-frame d w = ground arith

  -- What SetConfig leaves once the policy is in force: the pprof server or the new Manager has failed,
  -- or the server is the one asked for and the Manager is replaced.
  abbrev pub Finished : Config → ℕ → Driver → Rpc (Unit {0}) → Type 0
  Finished config k d (r, e, _) =
      ((is_ok r ≡ false) × Kept d e)
      ⊎ ((r ≡ ok tt)
          × (e.pprof ≡ (if config.pprof_addr =? "" then none else some config.pprof_addr))
          × Replaced k d e)

  abbrev pub rest_of_set_config : Config → Driver → World → Rpc (Unit {0})
  rest_of_set_config config d w =
      let (r, d', w') = configure_pprof config.pprof_addr d w in
      elim r [ err e ↦ (err (wrap "configure pprof" e), d', w') | ok _ ↦ replace_manager d' w' ]

  rest-Finished :
      (config : Config) (d : Driver) (w : World) (k : ℕ)
      → k < d.next_manager
      → d.pprof ≢ some ""
      → Finished config k d (rest_of_set_config config d w)
        × ((rest_of_set_config config d w).1.unit_policy ≡ d.unit_policy)
        × ((rest_of_set_config config d w).1.compute ≡ d.compute)
  rest-Finished config d w k l n =
      let (_, d', w') = configure_pprof config.pprof_addr d w in
      let (_, _, s, m, x) = configure_pprof-frame config.pprof_addr d w in
      let (v, x1) = configure_pprof-policy config.pprof_addr d w in
      elim (Result-cases (configure_pprof config.pprof_addr d w).0) [
        | inr (e, q) ↦ rw (q, rest_of_set_config) (inl (refl, (s, m)), v, x1)
        | inl (u, q) ↦
            let (b, b1, a) = replace_manager-frame d' w' in
            elim (replace_manager_cases d' w' k (ground arith)) [
              | inl (r, same) ↦
                  rw (q, rest_of_set_config) (inl (r, rw same ((s, m))), b ∙ v, b1 ∙ x1)
              | inr (r, new) ↦
                  rw (q, rest_of_set_config)
                    (
                      inr (
                        r,
                        a ∙ configure_pprof-pprof config.pprof_addr d w n q,
                        Replaced-rebase d d' (replace_manager d' w').1 k s m x new,
                      ),
                      b ∙ v,
                      b1 ∙ x1,
                    )
            ]
      ]

  abbrev pub SetConfigOutcome : PluginSetup → Driver → World → ℕ → Type 0
  SetConfigOutcome setup d w k =
      let done = set_config setup d w in
      Same d done.1
      × ((((is_ok (decode_setup setup) ≡ false) ⊎ (setup.has_agent_config ≡ false))
            × (is_ok done.0 ≡ false)
            × (done.1 ≡ d))
          ⊎ ((config : Config) × (decode_setup setup ≡ ok config)
              × (setup.has_agent_config ≡ true)
              × (let compiled =
                    compile_unit_policy h.regexps config.allowed_units config.denied_units in
                  ((is_ok compiled ≡ false)
                    × (is_ok done.0 ≡ false)
                    × (done.1 ≡ record d { compute = some setup.compute }))
                  ⊎ ((policy : UnitPolicy) × (compiled ≡ ok policy)
                      × (done.1.unit_policy ≡ some policy)
                      × (done.1.compute ≡ some setup.compute)
                      × Finished config k d done))))

  -- SetConfig on a Driver with no pprof server on the empty address, seen from any Manager k made
  -- before: no task and no owner changes. If the configuration does not decode or there is no agent's
  -- configuration it fails and changes nothing. Otherwise it takes the agent's compute over; if the
  -- policy cannot be built, it fails and changes nothing else; or the policy is built and is the
  -- Driver's from now on. Then it fails with the Managers as they were and the same one in use, or it
  -- succeeds: the pprof server is on the address of the configuration, none if that is empty, a new
  -- Manager is in use, and k is stopped exactly if it was in use.
  pub set_config_cases :
      (setup : PluginSetup) (d : Driver) (w : World) (k : ℕ)
      → k < d.next_manager
      → d.pprof ≢ some ""
      → SetConfigOutcome setup d w k
  unfolding set_config
  set_config_cases setup d w k l n = (
    set_config-Same setup d w,
    elim (Result-cases (decode_setup setup)) [
      | inr (e, q) ↦
          inl (inl (rw (q, is_ok) refl), rw (q, set_config, is_ok) refl, rw (q, set_config) refl)
      | inl (config, q) ↦ elim (Bool-cases setup.has_agent_config) [
        | inr a ↦
            inl (
              inr a,
              rw (q, set_config, is_ok) (rw (a, is_ok) refl),
              rw (q, set_config) (rw a refl),
            )
        | inl a ↦
            elim (Result-cases
              (compile_unit_policy h.regexps config.allowed_units config.denied_units)) [
                | inr (e, p) ↦ inr (
                  config,
                  q,
                  a,
                  inl (
                    rw (p, is_ok) refl,
                    rw (q, set_config, is_ok) (rw a (rw (p, is_ok) refl)),
                    rw (q, set_config) (rw a (rw p refl)),
                  ),
                )
                | inl (policy, p) ↦
                    let d1 : Driver = record d {
                      compute = some setup.compute;
                      unit_policy = some policy;
                    } in
                    let (finished, installed, kept) = rest-Finished config d1 w k l n in
                    inr (
                      config,
                      q,
                      a,
                      inr (
                        policy,
                        p,
                        rw (q, set_config) (rw a (rw p installed)),
                        rw (q, set_config) (rw a (rw p kept)),
                        rw (q, set_config) (rw a (rw p finished)),
                      ),
                    )
              ]
      ]
    ],
  )
