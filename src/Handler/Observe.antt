-- ===== src/Handler/Observe.antt =====
-- One check of a task's unit, pkg/task/state.go: what the Handler makes of systemd's answers.
use nomad_driver_systemd.Prelude.{
  ◌⊎◌, true, false, none, some, ◌≡◌, arith, inl, inr, Bool-cases, if_intro,
}
use nomad_driver_systemd.Errors.{Error, ok, err, Result-cases}
use nomad_driver_systemd.Units.{
  UnitState, exited, to_task_state, is_terminal, ExitResult, is_exited, is_failed, failed_exit,
  clean_exit,
}
use nomad_driver_systemd.Host.{Host}
use nomad_driver_systemd.Manager.{Manager}
use nomad_driver_systemd.Manager.Jobs.{unit_state}
use nomad_driver_systemd.Units.Laws.{to_task_state_classifies}
use nomad_driver_systemd.Handler.{
  Handler, begin_state_change, publish_exit, build_exit_result, known_exit, resolve_exit,
  handle_state_change, check_task_state, poll_round,
}
use nomad_driver_systemd.Handler.Exit.{Sections, observes, publishes, watches, done, then}

module _ ⦃h : Host⦄ (m : Manager) where
  open h use {World}

  -- The exit result of a stopped unit: what systemd knows of its process, and otherwise 1 with an
  -- error for a failed unit and 0 for any other.
  pub build_exit_result_cases :
      (th : Handler) (s : UnitState) (w : World)
      → ((r : ExitResult)
          → (known_exit m th.ended th.unit w).0 ≡ some r
          → (build_exit_result m th s w).0 ≡ r)
        × ((known_exit m th.ended th.unit w).0 ≡ none
            → is_failed s ≡ true
            → (build_exit_result m th s w).0 ≡ failed_exit)
        × ((known_exit m th.ended th.unit w).0 ≡ none
            → is_failed s ≡ false
            → (build_exit_result m th s w).0 ≡ clean_exit)
  unfolding build_exit_result resolve_exit
  build_exit_result_cases th s w =
      (λ r e. rw e, λ e f. rw (e, resolve_exit) (rw f), λ e f. rw (e, resolve_exit) (rw f))

  pub handle_state_change-Sections :
      (s : UnitState) (th : Handler) (w : World) → Sections th (handle_state_change m s th w).0
  unfolding handle_state_change
  handle_state_change-Sections s th w = elim (Bool-cases (begin_state_change s th).1) [
    | inl e ↦ rw (e, handle_state_change) (then (then done (observes s)) (publishes _ _))
    | inr e ↦ rw (e, handle_state_change) (then done (observes s))
  ]

  -- A check of the unit is a sequence of the critical sections.
  pub check_task_state-Sections :
      (th : Handler) (w : World) → Sections th (check_task_state m th w).1
  unfolding check_task_state
  check_task_state-Sections th w = elim (Bool-cases (is_exited th.state)) [
    | inl e ↦ rw (e, check_task_state) done
    | inr e ↦ elim (Result-cases (unit_state m th.ended th.unit w).0) [
      | inl (s, q) ↦ rw (e, check_task_state) (rw q (handle_state_change-Sections s th _))
      | inr (x, q) ↦ rw (e, check_task_state) (rw q done)
    ]
  ]

  -- So is a round of the polling loop.
  pub poll_round-Sections : (th : Handler) (w : World) → Sections th (poll_round m th w).0
  unfolding poll_round
  poll_round-Sections th w =
      if_intro (λ (r : Handler × World). Sections th r.0) th.ended (then done (watches false))
        (if_intro (Sections th) (check_task_state m th w).0
          (then (check_task_state-Sections th w) (watches false)) (check_task_state-Sections th w))

  -- The check reports whether the task has exited.
  pub check_task_state-is_exited :
      (th : Handler) (w : World)
      → (check_task_state m th w).0 ≡ is_exited (check_task_state m th w).1.state
  unfolding check_task_state
  check_task_state-is_exited th w = ground arith

  abbrev pub CheckOutcome : Handler → World → Type 0
  CheckOutcome th w =
      ((e : Error) × ((unit_state m th.ended th.unit w).0 ≡ err e)
        × ((check_task_state m th w).0 ≡ false)
        × ((check_task_state m th w).1 ≡ th))
      ⊎ ((s : UnitState) × ((unit_state m th.ended th.unit w).0 ≡ ok s)
          × (is_terminal s ≡ false)
          × ((check_task_state m th w).0 ≡ false)
          × ((check_task_state m th w).1 ≡ record th { state = to_task_state s }))
      ⊎ ((s : UnitState) × ((unit_state m th.ended th.unit w).0 ≡ ok s)
          × (is_terminal s ≡ true)
          × ((check_task_state m th w).0 ≡ true)
          × ((check_task_state m th w).1.state ≡ exited)
          × ((check_task_state m th w).1.exit_result
              ≡ some (build_exit_result m th s (unit_state m th.ended th.unit w).1).0))

  -- A check of a task that has not exited: the lookup of its unit's state fails, and nothing changes;
  -- or the state is not terminal, and is taken over; or it is terminal, and the task has exited, with
  -- the exit result that is resolved for it.
  pub check_task_state_cases :
      (th : Handler) (w : World) → is_exited th.state ≡ false → CheckOutcome th w
  unfolding check_task_state handle_state_change begin_state_change publish_exit
  check_task_state_cases th w n = elim (Result-cases (unit_state m th.ended th.unit w).0) [
    | inr (e, q) ↦ inl (e, q, ground arith, ground arith)
    | inl (s, q) ↦ elim (Bool-cases (is_terminal s)) [
      | inr t ↦ inr (
          inl (
            s,
            q,
            t,
            ground (arith, to_task_state_classifies s),
            ground (arith, to_task_state_classifies s),
          ))
      | inl t ↦ inr (
          inr (
            s,
            q,
            t,
            ground (arith, to_task_state_classifies s),
            ground (arith, to_task_state_classifies s),
            ground (arith, to_task_state_classifies s),
          ))
    ]
  ]
