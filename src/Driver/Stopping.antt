-- ===== src/Driver/Stopping.antt =====
-- StopTask and DestroyTask, plugin/task.go: the guard against destroying a live task, and what a
-- destroyed task leaves behind.
use nomad_driver_systemd.Prelude.{
  sym, ℕ, String, Bool, true, false, none, some, ◌≡◌, refl, ap, ◌∙◌, ◌⊎◌, inl, inr, arith, ◌=?◌,
  if◌then◌else◌, Bool-cases, Option-cases,
}
use nomad_driver_systemd.Prelude.Int.{ℤ}
use nomad_driver_systemd.Prelude.Map.{
  lookup, insert, lookup-insert, lookup-delete, lookup-delete_self,
}
use nomad_driver_systemd.Errors.{ok, err, is_ok, Result-cases, task_not_found}
use nomad_driver_systemd.Host.{Host}
use nomad_driver_systemd.Manager.{unit_locked, unregister_unit}
use nomad_driver_systemd.Handler.{Handler, has_exited, stop}
use nomad_driver_systemd.Driver.{Driver, release_unit, get_manager}
use nomad_driver_systemd.Driver.Teardown.{
  StopRace, exit_seen, stop_returned, timed_out, no_grace, stop_handler, kill_handler,
  force_kill_task, stop_or_kill, await_stop, stop_task, unregister, forget, destroy_task,
}
use nomad_driver_systemd.Driver.Ownership.{Owned, Same, Gone, Same-Owned, Gone-Owned}

-- Nothing but Managers has changed.
pub record Frame (d e : Driver) : Type 0 where
  pub tasks : e.tasks ≡ d.tasks
  pub owners : e.unit_owners ≡ d.unit_owners
  pub manager : e.systemd_mgr ≡ d.systemd_mgr

Frame-Same : {d e : Driver} → Frame d e → Same d e
Frame-Same f = record { tasks = f.tasks; owners = λ u. ap (lookup u) f.owners }

Frame-trans : {d e f : Driver} → Frame d e → Frame e f → Frame d f
Frame-trans p q = record {
  tasks = q.tasks ∙ p.tasks;
  owners = q.owners ∙ p.owners;
  manager = q.manager ∙ p.manager;
}

Gone-rebase : {d e f : Driver} {id unit : String} → Frame d e → Gone e id unit f → Gone d id unit f
Gone-rebase {id = id} {unit = unit} p g = record {
  tasks = λ i. g.tasks i ∙ ap (λ m. if id =? i then none else lookup i m) p.tasks;
  owners = λ u. g.owners u ∙ ap (λ m. if unit =? u then none else lookup u m) p.owners;
}

module _ ⦃h : Host⦄ where
  open h use {World}

  stop_handler-Frame : (th : Handler) (d : Driver) (w : World) → Frame d (stop_handler th d w).1
  unfolding stop_handler
  stop_handler-Frame th d w = record { tasks = refl; owners = refl; manager = refl }

  force_kill_task-Frame :
      (th : Handler) (d : Driver) (w : World) → Frame d (force_kill_task th d w).1
  unfolding force_kill_task kill_handler
  force_kill_task-Frame th d w = record {
    tasks = ground arith;
    owners = ground arith;
    manager = ground arith;
  }

  stop_or_kill-Frame : (th : Handler) (d : Driver) (w : World) → Frame d (stop_or_kill th d w).1
  unfolding stop_or_kill
  stop_or_kill-Frame th d w = elim (Result-cases (stop_handler th d w).0) [
    | inl (u, q) ↦ rw (q, stop_or_kill) (stop_handler-Frame th d w)
    | inr (e, q) ↦
        rw (q, stop_or_kill)
          (Frame-trans (stop_handler-Frame th d w) (force_kill_task-Frame th _ _))
  ]

  pub await_stop-Frame :
      (race : StopRace) (th : Handler) (d : Driver) (w : World) → Frame d (await_stop race th d w).1
  unfolding await_stop
  await_stop-Frame exit_seen th d w = record { tasks = refl; owners = refl; manager = refl }
  await_stop-Frame stop_returned th d w = stop_or_kill-Frame th d w
  await_stop-Frame timed_out th d w = force_kill_task-Frame th d w

  pub stop_task-Frame :
      (id : String) (timeout : ℤ) (race : StopRace) (d : Driver) (w : World)
      → Frame d (stop_task id timeout race d w).1
  unfolding stop_task
  stop_task-Frame id timeout race d w = elim (Option-cases (lookup id d.tasks)) [
    | inl n ↦ rw (n, stop_task) (record { tasks = refl; owners = refl; manager = refl })
    | inr (th, t) ↦ elim (Bool-cases (no_grace timeout)) [
      | inl g ↦ rw (t, stop_task) (rw g (force_kill_task-Frame th d w))
      | inr g ↦ rw (t, stop_task) (rw g (await_stop-Frame race th d w))
    ]
  ]

  pub stop_task-Owned :
      (id : String) (timeout : ℤ) (race : StopRace) (d : Driver) (w : World)
      → Owned d
      → Owned (stop_task id timeout race d w).1
  stop_task-Owned id timeout race d w v =
      Same-Owned (Frame-Same (stop_task-Frame id timeout race d w)) v

  forget-Gone : (id : String) (th : Handler) (d : Driver) → Gone d id th.unit (forget id th d)
  unfolding forget unregister release_unit
  forget-Gone id th d = record {
    tasks = λ i. ground (
      arith,
      lookup-delete id i (insert id (stop th) d.tasks),
      lookup-insert id i (stop th) d.tasks,
    );
    owners = λ u. ground (arith, lookup-delete th.unit u d.unit_owners);
  }

  forget-unregisters :
      (id : String) (th : Handler) (d : Driver)
      → (d.systemd_mgr ≡ none)
        ⊎ ((k : ℕ) × (d.systemd_mgr ≡ some k)
            × (unit_locked ((forget id th d).managers k) th.unit ≡ none))
  unfolding forget unregister release_unit get_manager unregister_unit
  forget-unregisters id th d = elim (Option-cases d.systemd_mgr) [
    | inl n ↦ inl n
    | inr (k, e) ↦ inr (k, e, ground (arith, lookup-delete_self th.unit (d.managers k).units))
  ]

  unregistered-rebase :
      {d d' : Driver}
      → Frame d d'
      → {P : ℕ → Type 0} → (d'.systemd_mgr ≡ none) ⊎ ((k : ℕ) × (d'.systemd_mgr ≡ some k) × P k)
      → (d.systemd_mgr ≡ none) ⊎ ((k : ℕ) × (d.systemd_mgr ≡ some k) × P k)
  unregistered-rebase frame (inl n) = inl (sym frame.manager ∙ n)
  unregistered-rebase frame (inr (k, e, p)) = inr (k, sym frame.manager ∙ e, p)

  abbrev pub DestroyOutcome : String → Bool → StopRace → Driver → World → Type 0
  DestroyOutcome id force race d w =
      ((lookup id d.tasks ≡ none) × (destroy_task id force race d w ≡ (err task_not_found, d, w)))
      ⊎ ((th : Handler) × (lookup id d.tasks ≡ some th)
          × (((has_exited th ≡ false)
                × (force ≡ false)
                × (is_ok (destroy_task id force race d w).0 ≡ false)
                × ((destroy_task id force race d w).1 ≡ d)
                × ((destroy_task id force race d w).2 ≡ w))
              ⊎ (((has_exited th ≡ true) ⊎ (force ≡ true))
                  × ((destroy_task id force race d w).0 ≡ ok tt)
                  × Gone d id th.unit (destroy_task id force race d w).1
                  × ((d.systemd_mgr ≡ none)
                      ⊎ ((k : ℕ) × (d.systemd_mgr ≡ some k)
                          × (unit_locked ((destroy_task id force race d w).1.managers k) th.unit
                              ≡ none))))))

  -- DestroyTask on an unknown task, and without force on a task that has not exited, is an error that
  -- changes nothing. Otherwise it succeeds: the task and the owner of its unit are gone, all other
  -- tasks and owners are as before, and the Driver's Manager, if there is one, no longer tracks
  -- the unit.
  pub destroy_task_cases :
      (id : String) (force : Bool) (race : StopRace) (d : Driver) (w : World)
      → DestroyOutcome id force race d w
  unfolding destroy_task
  destroy_task_cases id force race d w = elim (Option-cases (lookup id d.tasks)) [
    | inl n ↦ inl (n, rw (n, destroy_task) refl)
    | inr (th, t) ↦ inr (
      th,
      t,
      elim (Bool-cases (has_exited th)) [
        | inl x ↦ inr (
          inl x,
          rw (t, destroy_task) (rw x refl),
          rw (t, destroy_task) (rw x (forget-Gone id th d)),
          rw (t, destroy_task) (rw x (forget-unregisters id th d)),
        )
        | inr x ↦ elim (Bool-cases force) [
          | inr f ↦ inl (
            x,
            f,
            rw (t, destroy_task) (rw x (rw f refl)),
            rw (t, destroy_task) (rw x (rw f refl)),
            rw (t, destroy_task) (rw x (rw f refl)),
          )
          | inl f ↦
              let (_, d', w') = await_stop race th d w in
              let frame = await_stop-Frame race th d w in
              inr (
                inr f,
                rw (t, destroy_task) (rw x (rw f refl)),
                rw (t, destroy_task) (rw x (rw f (Gone-rebase frame (forget-Gone id th d')))),
                rw (t, destroy_task)
                    (rw x (rw f (unregistered-rebase frame (forget-unregisters id th d')))),
              )
        ]
      ],
    )
  ]

  pub destroy_task-Owned :
      (id : String) (force : Bool) (race : StopRace) (d : Driver) (w : World)
      → Owned d
      → Owned (destroy_task id force race d w).1
  destroy_task-Owned id force race d w v = elim (destroy_task_cases id force race d w) [
    | inl (n, same) ↦ rw same v
    | inr (th, t, o) ↦ elim o [
      | inl (x, f, r, same, _) ↦ rw same v
      | inr (c, r, gone, _) ↦ Gone-Owned gone t v
    ]
  ]
