-- ===== src/Watch/Kept.antt =====
-- plugin/driver.go, plugin/task.go and pkg/systemd/unit.go: over any sequence of RPCs, the tasks and
-- the units that the Manager watches agree.
use nomad_driver_systemd.Prelude.{
  ℕ, String, Bool, none, some, Option, ◌≡◌, refl, sym, subst, ◌∙◌, ap, ◌⊎◌, inl, inr, arith,
}
use nomad_driver_systemd.Prelude.Map.{lookup}
use nomad_driver_systemd.Host.{Host}
use nomad_driver_systemd.Manager.{Manager, wake_channel, unit_locked}
use nomad_driver_systemd.Handler.{Handler, poll_round}
use nomad_driver_systemd.Handler.Observe.{poll_round-Sections}
use nomad_driver_systemd.Driver.{Driver, new_driver, store_manager}
use nomad_driver_systemd.Driver.Tasks.{NomadTask, TaskHandle, start_task}
use nomad_driver_systemd.Driver.Recovery.{recover_task}
use nomad_driver_systemd.Driver.Teardown.{StopRace, destroy_task}
use nomad_driver_systemd.Driver.Ownership.{Owned}
use nomad_driver_systemd.Driver.Starting.{start_task_cases}
use nomad_driver_systemd.Driver.Recovering.{recover_task_cases}
use nomad_driver_systemd.Driver.Stopping.{stop_task-Frame, destroy_task_cases}
use nomad_driver_systemd.Driver.Works.{Works}
use nomad_driver_systemd.Driver.Works.Rpcs.{
  start_task-Works, recover_task-Works, stop_task-Works, destroy_task-Works,
}
use nomad_driver_systemd.Driver.Channels.{Except, nothing, only, store_manager-Except}
use nomad_driver_systemd.Driver.Channels.Rpcs.{start_task-Touches, recover_task-Touches}
use nomad_driver_systemd.Driver.Managing.{Reach-Managed}
use nomad_driver_systemd.Driver.Steps.{
  Step, Reach, here, next, starts_task, recovers_task, stops_task, destroys_task, sets_config,
  polls_task, manages, poll_task, Sections-frame, Reach-Owned, set_config-Same,
}
use nomad_driver_systemd.Watch.Background.{Background, Background-channel, Sections-watch}
use nomad_driver_systemd.Watch.Renewed.{Renewed-Listing, set_config-Renewed}
use nomad_driver_systemd.Driver.Channels.Teardown.{stop_task-Quiet, destroy_task-Except}
use nomad_driver_systemd.Watch.Listing.{
  Listing, Steady, Quiet-Listing, Started-Listing, Gone-Listing, polled-Listing,
}
use nomad_driver_systemd.Watch.Reached.{start_task-Reach, recover_task-Reach}

Works-Steady : {d e : Driver} → Works d e → Steady d e
Works-Steady w = record { in_use = w.in_use; made = w.made }

gone-channel :
    {o : Option ℕ} (k : ℕ) (ms : ℕ → Manager) (unit : String)
    → (o ≡ none) ⊎ ((j : ℕ) × (o ≡ some j) × (unit_locked (ms j) unit ≡ none))
    → o ≡ some k
    → wake_channel (ms k) unit ≡ none
unfolding wake_channel
gone-channel k ms unit (inl n) g = cc
gone-channel k ms unit (inr (j, e, n)) g =
    let same : j ≡ k = ground arith in
    let off : unit_locked (ms k) unit ≡ none = ap (λ i. unit_locked (ms i) unit) (sym same) ∙ n in
    rw (off, wake_channel) refl

module _ ⦃h : Host⦄ where
  open h use {World}

  -- The work on Managers in a run is that of their goroutines.
  abbrev pub Calm : {d e : Driver} → Step d e → Type 0
  Calm (manages k m s) = Background s
  Calm (starts_task _ _) = Unit
  Calm (recovers_task _ _) = Unit
  Calm (stops_task _ _ _ _) = Unit
  Calm (destroys_task _ _ _ _) = Unit
  Calm (sets_config _ _) = Unit
  Calm (polls_task _ _ _ _) = Unit

  abbrev pub AllCalm : {d e : Driver} → Reach d e → Type 0
  AllCalm here = Unit
  AllCalm (next r s) = AllCalm r × Calm s

  start_task-Listing :
      (ms : ℕ → Manager) (cfg : NomadTask) {d : Driver} (w : World)
      → Reach (new_driver ms) d
      → Listing d
      → Listing (start_task cfg d w).1
  start_task-Listing ms cfg {d} w r v =
      let steady = Works-Steady (start_task-Works cfg d w) in
      elim (start_task_cases cfg d w (Reach-Owned ms r)) [
        | inl (f, same) ↦ elim (start_task-Touches cfg d w) [
          | inl (_, quiet) ↦ Quiet-Listing same.tasks steady quiet v
          | inr (tc, o, _, _) ↦ cc
        ]
        | inr (tc, o, n, c, s) ↦
            let (k, g, watched) = start_task-Reach ms cfg w r o in
            let managed = Reach-Managed ms r in
            elim (start_task-Touches cfg d w) [
              | inl (f, _) ↦ cc
              | inr (tc', _, c', x) ↦
                  let same : tc' ≡ tc = ground arith in
                  Started-Listing s n steady
                    (subst (λ t. Except (only t.unit) d (start_task cfg d w).1) same x) watched g
                    (managed.in_use k g) (Reach-Owned ms r) v
            ]
      ]

  recover_task-Listing :
      (ms : ℕ → Manager) (handle : TaskHandle) {d : Driver} (w : World)
      → Reach (new_driver ms) d
      → Listing d
      → Listing (recover_task handle d w).1
  recover_task-Listing ms handle {d} w r v =
      let steady = Works-Steady (recover_task-Works handle d w) in
      elim (recover_task_cases handle d w (Reach-Owned ms r)) [
        | inl (t, o, same) ↦ rw same v
        | inr p ↦ elim p [
          | inl (f, same) ↦ elim (recover_task-Touches handle d w) [
            | inl (_, quiet) ↦ Quiet-Listing same.tasks steady quiet v
            | inr (tc, o, _, _) ↦ cc
          ]
          | inr (tc, o, n, c, s) ↦
              let (k, g, watched) = recover_task-Reach ms handle w r n o in
              let managed = Reach-Managed ms r in
              elim (recover_task-Touches handle d w) [
                | inl (f, _) ↦ absurd (elim f [ inl t ↦ t n | inr f ↦ cc ])
                | inr (tc', _, c', x) ↦
                    let same : tc' ≡ tc = ground arith in
                    Started-Listing s n steady
                      (subst (λ t. Except (only t.unit) d (recover_task handle d w).1) same x)
                      watched g (managed.in_use k g) (Reach-Owned ms r) v
              ]
        ]
      ]

  destroy_task-Listing :
      (id : String) (force : Bool) (race : StopRace) (d : Driver) (w : World)
      → Owned d
      → Listing d
      → Listing (destroy_task id force race d w).1
  destroy_task-Listing id force race d w o v =
      let steady = Works-Steady (destroy_task-Works id force race d w) in
      elim (destroy_task_cases id force race d w) [
        | inl (n, same) ↦ rw same v
        | inr (th, t, p) ↦ elim p [
          | inl (x, f, r, same, _) ↦ rw same v
          | inr (c, r, gone, off) ↦
              Gone-Listing gone t steady (destroy_task-Except id force race th d w t)
                (λ k g. gone-channel k (destroy_task id force race d w).1.managers th.unit off g) o
                v
        ]
      ]

  poll_task-Listing :
      (id : String) (th : Handler) (d : Driver) (w : World)
      → lookup id d.tasks ≡ some th
      → Listing d
      → Listing (poll_task id th d w).0
  unfolding poll_task
  poll_task-Listing id th d w t v =
      let sections = poll_round-Sections (d.managers th.units) th w in
      let (a, _) = Sections-frame sections in
      let (b, c) = Sections-watch sections in
      polled-Listing id th (poll_round (d.managers th.units) th w).0 t a b c v

  new_driver-Listing : (ms : ℕ → Manager) → Listing (new_driver ms)
  unfolding new_driver lookup
  new_driver-Listing ms = record {
    held = λ id th t. absurd (cc);
    waits = λ id th k t g on. absurd (cc);
    known = λ k unit c g l. absurd (cc);
  }

  -- In every state that a Driver reaches from New, by any sequence of StartTask, RecoverTask, StopTask,
  -- DestroyTask, SetConfig, polls of tracked tasks and work of the Managers' own goroutines: each
  -- tracked task is on a Manager that was made; if that is the Manager in use, it has the task's unit
  -- registered, with the channel that the task's Handler waits for; and each unit that the Manager in
  -- use has registered is that of a task that is tracked on it.
  pub Reach-Listing :
      (ms : ℕ → Manager) {d : Driver} (r : Reach (new_driver ms) d) → AllCalm r → Listing d
  Reach-Listing ms here b = new_driver-Listing ms
  Reach-Listing ms (next r (starts_task cfg w)) (b, _) =
      start_task-Listing ms cfg w r (Reach-Listing ms r b)
  Reach-Listing ms (next r (recovers_task handle w)) (b, _) =
      recover_task-Listing ms handle w r (Reach-Listing ms r b)
  Reach-Listing ms (next {e} r (stops_task id timeout race w)) (b, _) =
      Quiet-Listing (stop_task-Frame id timeout race e w).tasks
        (Works-Steady (stop_task-Works id timeout race e w)) (stop_task-Quiet id timeout race e w)
        (Reach-Listing ms r b)
  Reach-Listing ms (next {e} r (destroys_task id force race w)) (b, _) =
      destroy_task-Listing id force race e w (Reach-Owned ms r) (Reach-Listing ms r b)
  Reach-Listing ms (next {e} r (sets_config setup w)) (b, _) =
      Renewed-Listing (set_config-Same setup e w).tasks
        (set_config-Renewed setup e w (Reach-Managed ms r)) (Reach-Listing ms r b)
  Reach-Listing ms (next {e} r (polls_task id th w t)) (b, _) =
      poll_task-Listing id th e w t (Reach-Listing ms r b)
  Reach-Listing ms (next {e} r (manages k m s)) (b, calm) =
      Quiet-Listing {e = store_manager k m e} refl (record { in_use = refl; made = refl })
        (store_manager-Except nothing k m e (λ u n. Background-channel s u calm))
        (Reach-Listing ms r b)
