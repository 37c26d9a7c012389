-- ===== src/Driver/Escalation.antt =====
-- plugin/task.go: when StopTask succeeds, with forceKillTask.
use nomad_driver_systemd.Prelude.{
  true, false, some, String, ◌≡◌, ◌≢◌, ◌↔◌, refl, subst, ◌⊎◌, inl, inr, arith, Bool-cases,
  Option-cases,
}
use nomad_driver_systemd.Prelude.Int.{ℤ}
use nomad_driver_systemd.Prelude.Map.{lookup}
use nomad_driver_systemd.Errors.{ok, Result-cases}
use nomad_driver_systemd.Units.{UnitState, is_terminal}
use nomad_driver_systemd.Host.{Host}
use nomad_driver_systemd.Handler.{Handler}
use nomad_driver_systemd.Driver.{Driver}
use nomad_driver_systemd.Driver.Teardown.{
  StopRace, exit_seen, stop_returned, timed_out, no_grace, stop_handler, kill_handler,
  handler_state, force_kill_task, stop_or_kill, await_stop, stop_task,
}

module _ ⦃h : Host⦄ where
  open h use {World}

  -- The signal is delivered, or systemd answers afterwards that the unit has reached a terminal state.
  abbrev pub Kills : Handler → Driver → World → Type 0
  Kills th d w =
      let (r, d', w') = kill_handler th d w in
      (r ≡ ok tt) ⊎ ((s : UnitState) × ((handler_state th d' w').0 ≡ ok s) × (is_terminal s ≡ true))

  -- Within a period of grace, the task's exit is seen first, or the stop returns first and has
  -- succeeded.
  abbrev pub Graceful : ℤ → StopRace → Handler → Driver → World → Type 0
  Graceful timeout race th d w =
      (no_grace timeout ≡ false)
      × ((race ≡ exit_seen) ⊎ ((race ≡ stop_returned) × ((stop_handler th d w).0 ≡ ok tt)))

  -- Without a period of grace, or at its end, or after a stop that has failed, the unit is killed.
  abbrev pub Escalates : ℤ → StopRace → Handler → Driver → World → Type 0
  Escalates timeout race th d w =
      (((no_grace timeout ≡ true) ⊎ (race ≡ timed_out)) × Kills th d w)
      ⊎ ((race ≡ stop_returned)
          × (no_grace timeout ≡ false)
          × (let (r, d', w') = stop_handler th d w in (r ≢ ok tt) × Kills th d' w'))

  force_kill_task_iff :
      (th : Handler) (d : Driver) (w : World) → ((force_kill_task th d w).0 ≡ ok tt) ↔ Kills th d w
  unfolding force_kill_task
  force_kill_task_iff th d w = (λ e. ground arith, λ s. ground arith)

  Stops : ℤ → StopRace → Handler → Driver → World → Type 0
  Stops timeout race th d w = Graceful timeout race th d w ⊎ Escalates timeout race th d w

  stop_or_kill_iff :
      (th : Handler) (d : Driver) (w : World)
      → let (r, d', w') = stop_handler th d w in
        ((stop_or_kill th d w).0 ≡ ok tt) ↔ ((r ≡ ok tt) ⊎ ((r ≢ ok tt) × Kills th d' w'))
  unfolding stop_or_kill
  stop_or_kill_iff th d w = elim (Result-cases (stop_handler th d w).0) [
    | inl (u, q) ↦ (λ e. inl q, λ s. rw (q, stop_or_kill) refl)
    | inr (x, q) ↦
        let (_, d', w') = stop_handler th d w in
        let (to, from) = force_kill_task_iff th d' w' in
        (
          λ e. inr (λ o. cc, to (ground arith)),
          λ s. elim s [ inl o ↦ cc | inr (_, k) ↦ rw (q, stop_or_kill) (from k) ],
        )
  ]

  within_grace :
      (timeout : ℤ) (race : StopRace) (th : Handler) (d : Driver) (w : World)
      → no_grace timeout ≡ false
      → ((await_stop race th d w).0 ≡ ok tt) ↔ Stops timeout race th d w
  unfolding await_stop Stops
  within_grace timeout exit_seen th d w g = (λ e. inl (g, inl refl), λ s. refl)
  within_grace timeout stop_returned th d w g =
      let (to, from) = stop_or_kill_iff th d w in
      (
        λ e. elim (to e) [ inl o ↦ inl (g, inr (refl, o)) | inr k ↦ inr (inr (refl, g, k)) ],
        λ s. elim s [
          | inl (_, inl x) ↦ absurd (cc)
          | inl (_, inr (_, o)) ↦ from (inl o)
          | inr (inl (inl x, k)) ↦ absurd (cc)
          | inr (inl (inr x, k)) ↦ absurd (cc)
          | inr (inr (_, _, k)) ↦ from (inr k)
        ],
      )
  within_grace timeout timed_out th d w g =
      let (to, from) = force_kill_task_iff th d w in
      (
        λ e. inr (inl (inr refl, to e)),
        λ s. elim s [
          | inl (_, inl x) ↦ absurd (cc)
          | inl (_, inr (x, _)) ↦ absurd (cc)
          | inr (inl (_, k)) ↦ from k
          | inr (inr (x, _, _)) ↦ absurd (cc)
        ],
      )

  at_once :
      (timeout : ℤ) (race : StopRace) (th : Handler) (d : Driver) (w : World)
      → no_grace timeout ≡ true
      → ((force_kill_task th d w).0 ≡ ok tt) ↔ Stops timeout race th d w
  unfolding Stops
  at_once timeout race th d w g =
      let (to, from) = force_kill_task_iff th d w in
      (
        λ e. inr (inl (inl g, to e)),
        λ s. elim s [
          | inl (n, _) ↦ absurd (cc)
          | inr (inl (_, k)) ↦ from k
          | inr (inr (_, n, _)) ↦ absurd (cc)
        ],
      )

  outcome_iff :
      (id : String) (timeout : ℤ) (race : StopRace) (th : Handler) (d : Driver) (w : World)
      → lookup id d.tasks ≡ some th
      → ((stop_task id timeout race d w).0 ≡ ok tt) ↔ Stops timeout race th d w
  unfolding stop_task
  outcome_iff id timeout race th d w t = elim (Bool-cases (no_grace timeout)) [
    | inl g ↦ rw (t, stop_task) (rw (g, stop_task) (at_once timeout race th d w g))
    | inr g ↦ rw (t, stop_task) (rw (g, stop_task) (within_grace timeout race th d w g))
  ]

  -- StopTask succeeds exactly for a tracked task that stops in time, its exit or a stop with success
  -- seen within the period of grace; or whose unit, without a period of grace, at its end, or after
  -- a stop that has failed, gets the signal to be killed or is then told to have reached a terminal
  -- state.
  pub stop_task_iff :
      (id : String) (timeout : ℤ) (race : StopRace) (d : Driver) (w : World)
      → ((stop_task id timeout race d w).0 ≡ ok tt) ↔ (
          (th : Handler) × (lookup id d.tasks ≡ some th)
          × (Graceful timeout race th d w ⊎ Escalates timeout race th d w))
  unfolding stop_task Stops
  stop_task_iff id timeout race d w = elim (Option-cases (lookup id d.tasks)) [
    | inl n ↦ (λ e. absurd (ground arith), λ (th, t, _). absurd (cc))
    | inr (th, t) ↦
        let (to, from) = outcome_iff id timeout race th d w t in
        (
          λ e. (th, t, to e),
          λ (x, t', s).
              let same : x ≡ th = ground arith in
              from (subst (λ y. Stops timeout race y d w) same s),
        )
  ]
