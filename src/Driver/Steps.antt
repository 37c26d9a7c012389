-- ===== src/Driver/Steps.antt =====
-- Every sequence of RPCs, polls of the tasks and background work of the Managers, plugin's Driver as a
-- step relation: what holds in each state that it reaches from New, up to its shutdown.
use nomad_driver_systemd.Prelude.{
  ℕ, String, Bool, some, ◌≡◌, refl, ap, subst, ◌∙◌, inl, inr, arith, eq_iff, text-cases, Bool-cases,
}
use nomad_driver_systemd.Prelude.Int.{ℤ}
use nomad_driver_systemd.Prelude.Map.{lookup, insert, lookup-insert}
use nomad_driver_systemd.Errors.{Result-cases}
use nomad_driver_systemd.Host.{Host}
use nomad_driver_systemd.Policy.{compile_unit_policy}
use nomad_driver_systemd.Manager.{Manager}
use nomad_driver_systemd.Manager.Steps as Managers
use nomad_driver_systemd.Handler.{
  Handler, poll_round, begin_state_change, publish_exit, set_exit_result, set_started_at, stop,
}
use nomad_driver_systemd.Handler.Exit.{
  Sound, Section, Sections, observes, publishes, records, starts, stops, watches, done,
  Sections-Sound,
}
use nomad_driver_systemd.Handler.Observe.{poll_round-Sections}
use nomad_driver_systemd.Driver.{Driver, new_driver, store_manager}
use nomad_driver_systemd.Driver.Tasks.{NomadTask, TaskHandle, start_task}
use nomad_driver_systemd.Driver.Recovery.{recover_task}
use nomad_driver_systemd.Driver.Teardown.{StopRace, stop_task, destroy_task}
use nomad_driver_systemd.Driver.Setup.{
  PluginSetup, set_config, configure_pprof, start_pprof, stop_pprof, replace_manager, stop_manager,
  decode_setup,
}
use nomad_driver_systemd.Driver.Ownership.{Owned, Same, Same-refl, Same-Owned}
use nomad_driver_systemd.Driver.Starting.{start_task-Owned}
use nomad_driver_systemd.Driver.Recovering.{recover_task-Owned}
use nomad_driver_systemd.Driver.Stopping.{stop_task-Owned, destroy_task-Owned}

Section-frame : {th k : Handler} → Section th k → (k.unit ≡ th.unit) × (k.task_id ≡ th.task_id)
unfolding begin_state_change publish_exit set_started_at set_exit_result stop
Section-frame (observes s) = ground arith
Section-frame (publishes r t) = ground arith
Section-frame (records r t x) = ground arith
Section-frame (starts t) = ground arith
Section-frame stops = ground arith
Section-frame (watches b) = ground arith

pub Sections-frame :
    {th k : Handler} → Sections th k → (k.unit ≡ th.unit) × (k.task_id ≡ th.task_id)
Sections-frame done = (refl, refl)
Sections-frame (Sections.then r s) =
    let (a, b) = Section-frame s in let (c, d) = Sections-frame r in (a ∙ c, b ∙ d)

module _ ⦃h : Host⦄ where
  open h use {World}

  -- A round of a task's polling loop, which writes through the Handler's pointer.
  unfoldable pub poll_task : String → Handler → Driver → World → Driver × World
  poll_task id th d w =
      let (th', w') = poll_round (d.managers th.units) th w in
      (record d { tasks = insert id th' d.tasks }, w')

  -- The world that a step starts from is any: others act on it in between.
  pub data Step (d : Driver) : Driver → Type 0 where
    starts_task : (cfg : NomadTask) (w : World) → Step d (start_task cfg d w).1
    recovers_task : (handle : TaskHandle) (w : World) → Step d (recover_task handle d w).1
    stops_task :
        (id : String) (timeout : ℤ) (race : StopRace) (w : World)
        → Step d (stop_task id timeout race d w).1
    destroys_task :
        (id : String) (force : Bool) (race : StopRace) (w : World)
        → Step d (destroy_task id force race d w).1
    sets_config : (setup : PluginSetup) (w : World) → Step d (set_config setup d w).1
    polls_task :
        (id : String) (th : Handler) (w : World)
        → lookup id d.tasks ≡ some th
        → Step d (poll_task id th d w).0
    manages : (k : ℕ) (m : Manager) → Managers.Step (d.managers k) m → Step d (store_manager k m d)

  pub data Reach (d : Driver) : Driver → Type 0 where
    here : Reach d d
    next : {e f : Driver} → Reach d e → Step e f → Reach d f

  poll_task-Owned :
      (id : String) (th : Handler) (d : Driver) (w : World)
      → lookup id d.tasks ≡ some th
      → Owned d
      → Owned (poll_task id th d w).0
  unfolding poll_task
  poll_task-Owned id th d w t v =
      let th' = (poll_round (d.managers th.units) th w).0 in
      let sections = poll_round-Sections (d.managers th.units) th w in
      let (u, i) = Sections-frame sections in
      record {
        named = λ j x e.
            ground
              (arith, lookup-insert id j th' d.tasks, eq_iff id j, i, v.named id th t, v.named j x);
        owns = λ j x e.
            ground
              (arith, lookup-insert id j th' d.tasks, eq_iff id j, u, v.owns id th t, v.owns j x);
        tracked = λ unit j e.
            let (x, x_here, on) = v.tracked unit j e in
            elim (text-cases id j) [
              | inl same ↦ (
                th',
                ground (arith, lookup-insert id j th' d.tasks, eq_iff id j),
                ground (arith, u, on, same, x_here, t),
              )
              | inr differ ↦ (x, ground (arith, lookup-insert id j th' d.tasks), on)
            ];
        sound = λ j x e. elim (text-cases id j) [
          | inl same ↦
              subst Sound (ground (arith, lookup-insert id j th' d.tasks, eq_iff id j))
                (Sections-Sound (v.sound id th t) sections)
          | inr differ ↦ v.sound j x (ground (arith, lookup-insert id j th' d.tasks))
        ];
      }

  pub configure_pprof-frame :
      (addr : String) (d : Driver) (w : World)
      → ((configure_pprof addr d w).1.tasks ≡ d.tasks)
        × ((configure_pprof addr d w).1.unit_owners ≡ d.unit_owners)
        × ((configure_pprof addr d w).1.systemd_mgr ≡ d.systemd_mgr)
        × ((configure_pprof addr d w).1.managers ≡ d.managers)
        × ((configure_pprof addr d w).1.next_manager ≡ d.next_manager)
  unfolding configure_pprof start_pprof stop_pprof
  configure_pprof-frame addr d w = ground arith

  replace_manager-frame :
      (d : Driver) (w : World)
      → ((replace_manager d w).1.tasks ≡ d.tasks)
        × ((replace_manager d w).1.unit_owners ≡ d.unit_owners)
  unfolding replace_manager stop_manager
  replace_manager-frame d w = ground arith

  configure_pprof-Same :
      (addr : String) (d : Driver) (w : World) → Same d (configure_pprof addr d w).1
  configure_pprof-Same addr d w =
      let f = configure_pprof-frame addr d w in
      record { tasks = f.0; owners = λ u. ap (lookup u) f.1 }

  -- SetConfig changes neither the tasks nor the owners, whether it succeeds or fails.
  pub set_config-Same :
      (setup : PluginSetup) (d : Driver) (w : World) → Same d (set_config setup d w).1
  unfolding set_config
  set_config-Same setup d w = elim (Result-cases (decode_setup setup)) [
    | inr (e, q) ↦ rw (q, set_config) (Same-refl d)
    | inl (config, q) ↦ elim (Bool-cases setup.has_agent_config) [
      | inr a ↦ rw (q, set_config) (rw a (Same-refl d))
      | inl a ↦
          elim (Result-cases
            (compile_unit_policy h.regexps config.allowed_units config.denied_units)) [
              | inr (e, p) ↦
                  rw (q, set_config) (rw a (rw p (record { tasks = refl; owners = λ u. refl })))
              | inl (policy, p) ↦
                  let d1 : Driver = record d {
                    compute = some setup.compute;
                    unit_policy = some policy;
                  } in
                  let (_, d2, w2) = configure_pprof config.pprof_addr d1 w in
                  let s = configure_pprof-Same config.pprof_addr d1 w in
                  let f = replace_manager-frame d2 w2 in
                  elim (Result-cases (configure_pprof config.pprof_addr d1 w).0) [
                    | inr (e, c) ↦
                        rw (q, set_config)
                          (rw a (rw p (rw c (record { tasks = s.tasks; owners = s.owners }))))
                    | inl (u, c) ↦
                        rw (q, set_config)
                          (rw a (
                            rw p (
                              rw c (record {
                                tasks = f.0 ∙ s.tasks;
                                owners = λ u. ap (lookup u) f.1 ∙ s.owners u;
                              }))))
                  ]
            ]
    ]
  ]

  pub Step-Owned : {d e : Driver} → Step d e → Owned d → Owned e
  Step-Owned {d} (starts_task cfg w) v = start_task-Owned cfg d w v
  Step-Owned {d} (recovers_task handle w) v = recover_task-Owned handle d w v
  Step-Owned {d} (stops_task id timeout race w) v = stop_task-Owned id timeout race d w v
  Step-Owned {d} (destroys_task id force race w) v = destroy_task-Owned id force race d w v
  Step-Owned {d} (sets_config setup w) v = Same-Owned (set_config-Same setup d w) v
  Step-Owned {d} (polls_task id th w t) v = poll_task-Owned id th d w t v
  Step-Owned {d} (manages k m s) v = Same-Owned (record { tasks = refl; owners = λ u. refl }) v

  new_driver-Owned : (ms : ℕ → Manager) → Owned (new_driver ms)
  unfolding new_driver lookup
  new_driver-Owned ms = record {
    named = λ id th e. cc;
    owns = λ id th e. cc;
    tracked = λ u id e. absurd (cc);
    sound = λ id th e. absurd (cc);
  }

  -- In every state that the Driver reaches, by any sequence of RPCs, polls and background work: a
  -- tracked task is stored under its id and owns its unit, an owned unit has its task tracked on it, and the recorded state of
  -- every tracked task is sound.
  pub Reach-Owned : (ms : ℕ → Manager) {d : Driver} → Reach (new_driver ms) d → Owned d
  Reach-Owned ms here = new_driver-Owned ms
  Reach-Owned ms (next r s) = Step-Owned s (Reach-Owned ms r)

  -- In every state that the Driver reaches, by any sequence of RPCs, polls and background work, two
  -- tracked tasks with the same unit are the same task.
  Reach-exclusive :
      (ms : ℕ → Manager) {d : Driver}
      → Reach (new_driver ms) d
      → (i j : String) (a b : Handler) → lookup i d.tasks ≡ some a
      → lookup j d.tasks ≡ some b
      → a.unit ≡ b.unit
      → i ≡ j
  Reach-exclusive ms r i j a b p q e =
      ground (arith, (Reach-Owned ms r).owns i a p, (Reach-Owned ms r).owns j b q)
