-- ===== src/Driver/Stats/Stream.antt =====
-- plugin/task.go: what a stream of TaskStats carries, and when it ends.
use nomad_driver_systemd.Prelude.{
  ℕ, Option, String, Bool, true, false, List, [], ◌∷◌, none, some, ◌≡◌, ◌⊎◌, inl, inr, refl, ap,
  ◌∙◌, if◌then◌else◌,
}
use nomad_driver_systemd.Prelude.Map.{lookup}
use nomad_driver_systemd.Errors.{Error, is_unit_not_registered, ok, err, Result-cases}
use nomad_driver_systemd.Host.{Host}
use nomad_driver_systemd.Manager.{Manager, registered, unit_locked}
use nomad_driver_systemd.Manager.Stats.{ResourceStats, resource_stats}
use nomad_driver_systemd.Manager.Sampling.{resource_stats_cases}
use nomad_driver_systemd.Handler.{Handler, has_exited}
use nomad_driver_systemd.Driver.{Driver}
use nomad_driver_systemd.Driver.Teardown.{StopRace, destroy_task}
use nomad_driver_systemd.Driver.Stopping.{destroy_task_cases}
use nomad_driver_systemd.Driver.Stats.{
  handler_stats, usage_of, send_usage, send_task_stats, StatsEvent, timer_fired, sending,
  stream_stats, Sent,
}

module _ ⦃h : Host⦄ where
  open h use {World, Float}

  module _ (th : Handler) (ctx taken : Bool) (events : List StatsEvent) (d : Driver)
      (w : World) where
    abbrev StreamOutcome : Type 0
    StreamOutcome =
        ((registered (d.managers th.units) th.unit ≡ false)
          × (stream_stats th (timer_fired ctx taken ∷ events) d w ≡ ([], true)))
        ⊎ ((registered (d.managers th.units) th.unit ≡ true)
            × ((stats : ResourceStats Float) × ((handler_stats th ctx d w).0 ≡ ok stats)
                × (let (_, d', w') = handler_stats th ctx d w in
                    let (usage, w'') = usage_of stats w' in
                    stream_stats th (timer_fired ctx taken ∷ events) d w
                    ≡ sending (if taken then some usage else none)
                        (stream_stats th events d' w''))))

    sends :
        {stats : ResourceStats Float}
        → (handler_stats th ctx d w).0 ≡ ok stats
        → let (_, d', w') = handler_stats th ctx d w in
          let (usage, w'') = usage_of stats w' in
          send_task_stats th ctx taken d w ≡ (true, if taken then some usage else none, d', w'')
    unfolding send_task_stats send_usage
    sends q = rw (q, send_task_stats) refl

    goes_on :
        {s : Sent}
        → send_task_stats th ctx taken d w ≡ s
        → stream_stats th (timer_fired ctx taken ∷ events) d w
          ≡ sending s.1 (elim s.0 [ true ↦ stream_stats th events s.2 s.3 | false ↦ ([], true) ])
    unfolding stream_stats
    goes_on {s} q =
        ap
          (λ (r : Sent).
            sending r.1 (elim r.0 [ true ↦ stream_stats th events r.2 r.3 | false ↦ ([], true) ]))
          q

    ends :
        {e : Error}
        → (handler_stats th ctx d w).0 ≡ err e
        → is_unit_not_registered e ≡ true
        → stream_stats th (timer_fired ctx taken ∷ events) d w ≡ ([], true)
    unfolding send_task_stats
    ends q n =
        let (_, d', w') = handler_stats th ctx d w in
        goes_on {s = (false, none, d', w')} (rw (q, send_task_stats) (rw n refl))

    -- A round of the stats stream: the task's unit is not registered, and the channel is closed with
    -- no more samples; or it is, the statistics are read, a sample of them is sent, which Nomad gets
    -- unless its context ends first, and the stream goes on.
    stream_stats_cases : StreamOutcome
    unfolding handler_stats
    stream_stats_cases = elim (resource_stats_cases (d.managers th.units) ctx th.unit w) [
      | inl (r, o) ↦ elim (Result-cases (resource_stats (d.managers th.units) ctx th.unit w).0) [
        | inl (stats, q) ↦ inr (r, (stats, q, goes_on (sends q)))
        | inr (e, q) ↦ cc
      ]
      | inr (r, (e, q, n)) ↦ inl (r, ends q n)
    ]

  unlocked-registered :
      (ms : ℕ → Manager) (th other : Handler) (j : ℕ)
      → th ≡ other
      → th.units ≡ j
      → unit_locked (ms j) other.unit ≡ none
      → registered (ms th.units) th.unit ≡ false
  unfolding registered
  unlocked-registered ms th other j e u n =
      let gone : unit_locked (ms th.units) th.unit ≡ none =
        ap (λ k. unit_locked (ms k) th.unit) u
        ∙ ap (λ (x : Handler). unit_locked (ms j) x.unit) e
        ∙ n in
      rw (gone, registered) refl

  exit_clash :
      {th other : Handler} → th ≡ other → has_exited other ≡ false → has_exited th ≡ true → ⊥
  exit_clash e x y = cc

  some-eq : {th other : Handler} {o : Option Handler} → o ≡ some th → o ≡ some other → th ≡ other
  some-eq p q = cc

  units-eq : {a b : ℕ} {o : Option ℕ} → o ≡ some a → o ≡ some b → a ≡ b
  units-eq p q = cc

  destroy_task-registered :
      (id : String) (force : Bool) (race : StopRace) (th : Handler) (d : Driver) (w : World)
      → lookup id d.tasks ≡ some th
      → d.systemd_mgr ≡ some th.units
      → (has_exited th ≡ true) ⊎ (force ≡ true)
      → registered ((destroy_task id force race d w).1.managers th.units) th.unit ≡ false
  destroy_task-registered id force race th d w t k c = elim (destroy_task_cases id force race d w) [
    | inl (n, _) ↦ cc
    | inr (other, at, outcome) ↦ elim outcome [
      | inl (x, f, _, _, _) ↦ elim c [
        | inl exited ↦ absurd (exit_clash (some-eq t at) x exited)
        | inr forced ↦ cc
      ]
      | inr (_, _, _, gone) ↦ elim gone [
        | inl n ↦ cc
        | inr (j, m, u) ↦
            unlocked-registered (destroy_task id force race d w).1.managers th other j
              (some-eq t at) (units-eq k m) u
      ]
    ]
  ]

  -- After a DestroyTask that is forced or comes after the task's exit, on the Manager that watches
  -- the task, the next round of its stats stream closes the channel with no more samples.
  pub stream_stats-destroy_task :
      (id : String) (force : Bool) (race : StopRace) (th : Handler) (d : Driver) (w : World)
      → lookup id d.tasks ≡ some th
      → d.systemd_mgr ≡ some th.units
      → (has_exited th ≡ true) ⊎ (force ≡ true)
      → (ctx taken : Bool) (events : List StatsEvent) (w' : World)
      → stream_stats th (timer_fired ctx taken ∷ events) (destroy_task id force race d w).1 w'
        ≡ ([], true)
  stream_stats-destroy_task id force race th d w t k c ctx taken events w' =
      elim (stream_stats_cases th ctx taken events (destroy_task id force race d w).1 w') [
        | inl (_, closed) ↦ closed
        | inr (r, _) ↦ absurd (cc (destroy_task-registered id force race th d w t k c))
      ]
