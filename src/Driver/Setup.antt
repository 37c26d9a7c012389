-- ===== src/Driver/Setup.antt =====
-- plugin/driver.go, plugin/pprof.go and plugin/fingerprint.go: configuration and health.
use nomad_driver_systemd.Prelude.{
  ℕ, suc, String, Bool, true, false, List, [], ◌∷◌, Option, none, some, ◌=?◌, if◌then◌else◌,
}
use nomad_driver_systemd.Errors.{Result, ok, err, wrap, wrapped, message}
use nomad_driver_systemd.Config.{Config}
use nomad_driver_systemd.Policy.{compile_unit_policy}
use nomad_driver_systemd.Host.{Host}
use nomad_driver_systemd.Manager.Stats.{cgroup_v2_available}
use nomad_driver_systemd.Manager.{Manager, healthy}
use nomad_driver_systemd.Manager
use nomad_driver_systemd.Manager.Connect.{make_manager}
use nomad_driver_systemd.Driver.{Driver, get_manager, store_manager}
use nomad_driver_systemd.Driver.Tasks.{Rpc}

-- Nomad's base.Config: the encoded plugin configuration, none if empty, and whether the agent's
-- configuration is there, with the number that stands for what its Compute returns.
pub record PluginSetup : Type 0 where
  pub plugin_config : Option String
  pub has_agent_config : Bool
  pub compute : ℕ

abbrev pub default_config : Config
default_config = record { allowed_units = []; denied_units = []; pprof_addr = "" }

pub data HealthState : Type 0 where
  undetected unhealthy healthy_state : HealthState

-- The outcome of a fingerprint: its health and, if healthy, the attribute driver.systemd.stats.
pub record Fingerprint : Type 0 where
  pub health : HealthState
  pub stats : Option Bool

module _ ⦃h : Host⦄ where
  open h use {World}

  unfoldable pub stop_pprof : Driver → World → Driver × World
  stop_pprof d w =
      (record d { pprof = none }, elim d.pprof [ none ↦ w | some addr ↦ h.unlisten addr w ])

  -- configurePprof with no server on that address running.
  unfoldable pub start_pprof : String → Driver → World → Rpc (Unit {0})
  start_pprof addr d w =
      if addr =? ""
      then (ok tt, d, w)
      else (let (r, w') = h.listen addr w in
          elim r [
            | err e ↦ (err (wrap "listen on" e), d, w')
            | ok _ ↦ (ok tt, record d { pprof = some addr }, w')
          ])

  unfoldable pub configure_pprof : String → Driver → World → Rpc (Unit {0})
  configure_pprof addr d w = elim d.pprof [
    | none ↦ start_pprof addr d w
    | some current ↦
        if current =? addr
        then (ok tt, d, w)
        else (let (d', w') = stop_pprof d w in start_pprof addr d' w')
  ]

  unfoldable pub decode_setup : PluginSetup → Result Config
  decode_setup setup = elim setup.plugin_config [
    | none ↦ ok default_config
    | some raw ↦ wrapped "decode driver config" (h.decode_config raw)
  ]

  -- The stop of the Manager that Swap returned.
  unfoldable pub stop_manager : Option ℕ → Driver → World → Driver × World
  stop_manager none d w = (d, w)
  stop_manager (some k) d w =
      let (m, w') = Manager.stop (d.managers k) w in (store_manager k m d, w')

  -- SetConfig from NewManager on.
  unfoldable pub replace_manager : Driver → World → Rpc (Unit {0})
  replace_manager d w =
      let (r, w') = make_manager w in
      elim r [
        | err e ↦ (err (wrap "create systemd manager" e), d, w')
        | ok m ↦
            let k = d.next_manager in
            let d' : Driver = record (store_manager k m d) {
              next_manager = suc k;
              systemd_mgr = some k;
            } in
            let (d'', w'') = stop_manager d.systemd_mgr d' w' in (ok tt, d'', w'')
      ]

  unfoldable pub set_config : PluginSetup → Driver → World → Rpc (Unit {0})
  set_config setup d w = elim (decode_setup setup) [
    | err e ↦ (err e, d, w)
    | ok config ↦
        if setup.has_agent_config
        then (let d0 : Driver = record d { compute = some setup.compute } in
            elim (compile_unit_policy h.regexps config.allowed_units config.denied_units) [
              | err e ↦ (err (wrap "invalid unit policy configuration" e), d0, w)
              | ok policy ↦
                  let (r, d', w') =
                    configure_pprof config.pprof_addr (record d0 { unit_policy = some policy }) w in
                  elim r [
                    | err e ↦ (err (wrap "configure pprof" e), d', w')
                    | ok _ ↦ replace_manager d' w'
                  ]
            ])
        else (err (message "nomad agent config is required"), d, w)
  ]

  unfoldable pub build_fingerprint : String → Driver → World → Fingerprint
  build_fingerprint cgroup_controllers d w = elim (get_manager d) [
    | err e ↦ record { health = undetected; stats = none }
    | ok k ↦
        if healthy (d.managers k) w
        then record {
          health = healthy_state;
          stats = some (cgroup_v2_available cgroup_controllers w);
        }
        else record { health = unhealthy; stats = none }
  ]

  -- What the loop's selects receive: the end of the caller's context or of the Driver's, or the timer,
  -- with the Driver and the world that it finds, and whether the caller takes the fingerprint before
  -- one of the contexts ends.
  pub data FingerprintEvent : Type 0 where
    context_done driver_done : FingerprintEvent
    timer_fired : Driver → World → (taken : Bool) → FingerprintEvent

  -- The fingerprints that the caller gets; its channel is closed at the end.
  unfoldable pub handle_fingerprint : String → List FingerprintEvent → List Fingerprint
  unfolding build_fingerprint
  handle_fingerprint path [] = []
  handle_fingerprint path (context_done ∷ events) = []
  handle_fingerprint path (driver_done ∷ events) = []
  handle_fingerprint path (timer_fired d w taken ∷ events) = elim taken [
    | true ↦ build_fingerprint path d w ∷ handle_fingerprint path events
    | false ↦ []
  ]
