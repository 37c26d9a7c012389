-- ===== src/Driver/Managing.antt =====
-- plugin/driver.go and plugin/task.go: the Managers that a Driver has made.
use nomad_driver_systemd.Prelude.{
  ◌≢◌, ◌⊎◌, ◌∙◌, Option-cases, ℕ, suc, ◌==◌, ◌<◌, String, Option, none, some, ◌≡◌, refl, inl, inr,
  arith, Bool-cases,
}
use nomad_driver_systemd.Errors.{ok, Result-cases}
use nomad_driver_systemd.Host.{Host}
use nomad_driver_systemd.Policy.{compile_unit_policy}
use nomad_driver_systemd.Manager
use nomad_driver_systemd.Manager.{Manager, new_manager, shut}
use nomad_driver_systemd.Manager.Connect.{make_manager}
use nomad_driver_systemd.Manager.Lifetime.{Stopped, Stopped-Reach, shut-Stopped}
use nomad_driver_systemd.Manager.Steps as Managers
use nomad_driver_systemd.Manager.Sections.{Reach-trans}
use nomad_driver_systemd.Driver.{Driver, new_driver}
use nomad_driver_systemd.Driver.Setup.{
  PluginSetup, set_config, replace_manager, stop_manager, configure_pprof, decode_setup,
}
use nomad_driver_systemd.Driver.Works.{Works, Works-refl, Works-same, store_manager-Works}
use nomad_driver_systemd.Driver.Works.Rpcs.{
  start_task-Works, recover_task-Works, stop_task-Works, destroy_task-Works,
}
use nomad_driver_systemd.Driver.Steps.{
  Step, Reach, here, next, starts_task, recovers_task, stops_task, destroys_task, sets_config,
  polls_task, manages, poll_task, configure_pprof-frame,
}

-- The Manager in use has been made; each Manager that was made is in a state that it reaches from its
-- creation by its critical sections, and is stopped unless it is the one in use.
pub record Managed (d : Driver) : Type 0 where
  pub in_use : (k : ℕ) → d.systemd_mgr ≡ some k → k < d.next_manager
  pub lived : (k : ℕ) → k < d.next_manager → (c : ℕ) × Managers.Reach (new_manager c) (d.managers k)
  pub retired : (k : ℕ) → k < d.next_manager → d.systemd_mgr ≢ some k → Stopped (d.managers k)

pub Works-Managed : {d e : Driver} → Works d e → Managed d → Managed e
Works-Managed {d} {e} p v = record {
  in_use = λ k u. ground (arith, p.in_use, p.made, v.in_use k);
  lived =
      λ k l. let (c, r) = v.lived k (ground (arith, p.made)) in (c, Reach-trans r (p.sections k));
  retired = λ k l n.
      Stopped-Reach (p.sections k) (v.retired k (ground (arith, p.made)) (λ e. n (p.in_use ∙ e)));
}

in_use_cases : (d : Driver) (k : ℕ) → (d.systemd_mgr ≡ some k) ⊎ (d.systemd_mgr ≢ some k)
in_use_cases d k = elim (Option-cases d.systemd_mgr) [
  | inl n ↦ inr (λ e. cc)
  | inr (j, n) ↦ elim (Bool-cases (j == k)) [
    | inl x ↦ inl (ground arith)
    | inr x ↦ inr (λ e. ground arith)
  ]
]

module _ ⦃h : Host⦄ where
  open h use {World}

  pub make_manager-ok :
      (w : World) (m : Manager) → (make_manager w).0 ≡ ok m → (c : ℕ) × (m ≡ new_manager c)
  unfolding make_manager
  make_manager-ok w m e = elim (Result-cases (h.new_connection w).0) [
    | inr (x, q) ↦ absurd (ground arith)
    | inl (c, q) ↦ (c, ground arith)
  ]

  stop_manager-Works : (o : Option ℕ) (d : Driver) (w : World) → Works d (stop_manager o d w).0
  unfolding stop_manager Manager.stop
  stop_manager-Works none d w = Works-refl d
  stop_manager-Works (some k) d w =
      store_manager-Works k _ d (Managers.next Managers.here Managers.shuts)

  -- A Driver with one more Manager, just made, and the one that was in use stopped.
  replaced-Managed :
      (c : ℕ) (d e : Driver)
      → e.next_manager ≡ suc d.next_manager
      → e.systemd_mgr ≡ some d.next_manager
      → e.managers d.next_manager ≡ new_manager c
      → ((k : ℕ) → k < d.next_manager → d.systemd_mgr ≢ some k → e.managers k ≡ d.managers k)
      → ((k : ℕ) → k < d.next_manager → d.systemd_mgr ≡ some k → e.managers k ≡ shut (d.managers k))
      → Managed d
      → Managed e
  replaced-Managed c d e made used new kept stopped v = record {
    in_use = λ k u. ground (arith, made, used);
    lived = λ k l. elim (Bool-cases (k == d.next_manager)) [
      | inl x ↦ let same : k ≡ d.next_manager = ground arith in (c, rw same (rw new Managers.here))
      | inr x ↦
          let old : k < d.next_manager = ground (arith, made) in
          let (a, r) = v.lived k old in
          elim (in_use_cases d k) [
            | inl u ↦ (a, rw (stopped k old u) (Managers.next r Managers.shuts))
            | inr u ↦ (a, rw (kept k old u) r)
          ]
    ];
    retired = λ k l n. elim (Bool-cases (k == d.next_manager)) [
      | inl x ↦ absurd (n (ground (arith, used)))
      | inr x ↦
          let old : k < d.next_manager = ground (arith, made) in
          elim (in_use_cases d k) [
            | inl u ↦ rw (stopped k old u) (shut-Stopped (d.managers k))
            | inr u ↦ rw (kept k old u) (v.retired k old u)
          ]
    ];
  }

  replace_manager-Managed : (d : Driver) (w : World) → Managed d → Managed (replace_manager d w).1
  unfolding replace_manager stop_manager Manager.stop
  replace_manager-Managed d w v = elim (Result-cases (make_manager w).0) [
    | inr (e, q) ↦ rw (q, replace_manager) v
    | inl (m, q) ↦
        let (c, new) = make_manager-ok w m q in
        elim (Option-cases d.systemd_mgr) [
          | inl n ↦
              replaced-Managed c d (replace_manager d w).1 (ground arith) (ground arith)
                (ground arith) (λ k l u. ground arith) (λ k l u. ground arith) v
          | inr (j, n) ↦
              replaced-Managed c d (replace_manager d w).1 (ground arith) (ground arith)
                (ground (arith, v.in_use j n)) (λ k l u. ground arith) (λ k l u. ground arith) v
        ]
  ]

  pub configure_pprof-Works :
      (addr : String) (d : Driver) (w : World) → Works d (configure_pprof addr d w).1
  configure_pprof-Works addr d w =
      let (_, _, u, m, n) = configure_pprof-frame addr d w in
      Works-same d (configure_pprof addr d w).1 m u n

  set_config-Managed :
      (setup : PluginSetup) (d : Driver) (w : World) → Managed d → Managed (set_config setup d w).1
  unfolding set_config
  set_config-Managed setup d w v = elim (Result-cases (decode_setup setup)) [
    | inr (x, q) ↦ rw (q, set_config) v
    | inl (config, q) ↦ elim (Bool-cases setup.has_agent_config) [
      | inr a ↦ rw (q, set_config) (rw a v)
      | inl a ↦
          elim (Result-cases
            (compile_unit_policy h.regexps config.allowed_units config.denied_units)) [
              | inr (x, p) ↦
                  let d0 : Driver = record d { compute = some setup.compute } in
                  rw (q, set_config)
                    (rw a (rw p (Works-Managed (Works-same d d0 refl refl refl) v)))
              | inl (policy, p) ↦
                  let d1 : Driver = record d {
                    compute = some setup.compute;
                    unit_policy = some policy;
                  } in
                  let (_, d2, w2) = configure_pprof config.pprof_addr d1 w in
                  let v1 = Works-Managed (Works-same d d1 refl refl refl) v in
                  let v2 = Works-Managed (configure_pprof-Works config.pprof_addr d1 w) v1 in
                  elim (Result-cases (configure_pprof config.pprof_addr d1 w).0) [
                    | inr (x, o) ↦ rw (q, set_config) (rw a (rw p (rw o v2)))
                    | inl (u, o) ↦
                        rw (q, set_config) (rw a (rw p (rw o (replace_manager-Managed d2 w2 v2))))
                  ]
            ]
    ]
  ]

  Step-Managed : {d e : Driver} → Step d e → Managed d → Managed e
  unfolding poll_task
  Step-Managed {d} (starts_task cfg w) v = Works-Managed (start_task-Works cfg d w) v
  Step-Managed {d} (recovers_task handle w) v = Works-Managed (recover_task-Works handle d w) v
  Step-Managed {d} (stops_task id timeout race w) v =
      Works-Managed (stop_task-Works id timeout race d w) v
  Step-Managed {d} (destroys_task id force race w) v =
      Works-Managed (destroy_task-Works id force race d w) v
  Step-Managed {d} (sets_config setup w) v = set_config-Managed setup d w v
  Step-Managed {d} (polls_task id th w t) v =
      Works-Managed (Works-same d (poll_task id th d w).0 refl refl refl) v
  Step-Managed {d} (manages k m s) v =
      Works-Managed (store_manager-Works k m d (Managers.next Managers.here s)) v

  new_driver-Managed : (ms : ℕ → Manager) → Managed (new_driver ms)
  unfolding new_driver
  new_driver-Managed ms = record {
    in_use = λ k u. absurd (cc);
    lived = λ k l. absurd (omega arith);
    retired = λ k l n. absurd (omega arith);
  }

  -- In every state that a Driver reaches from New, by any sequence of StartTask, RecoverTask,
  -- StopTask, DestroyTask, SetConfig, polls of tracked tasks and background work of the Managers, the
  -- Manager in use, if there is one, has been made, and each Manager that was made, in use or
  -- replaced, is in a state that it reaches from its creation by a sequence of its critical sections;
  -- and each but the one in use is stopped: its context is cancelled, no unit has a journal reader
  -- there, and none can get one.
  pub Reach-Managed : (ms : ℕ → Manager) {d : Driver} → Reach (new_driver ms) d → Managed d
  Reach-Managed ms here = new_driver-Managed ms
  Reach-Managed ms (next r s) = Step-Managed s (Reach-Managed ms r)
