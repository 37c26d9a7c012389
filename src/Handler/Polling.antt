-- ===== src/Handler/Polling.antt =====
-- pkg/task/state.go: the whole of pollTaskState, over what its select receives.
use nomad_driver_systemd.Prelude.{
  String, Bool, true, false, List, [], ◌∷◌, ◌≡◌, ◌↔◌, ◌⊎◌, inl, inr, refl, ap, subst, sym, ◌∙◌,
  arith,
}
use nomad_driver_systemd.Errors.{ok}
use nomad_driver_systemd.Units.{UnitState, is_exited, is_terminal}
use nomad_driver_systemd.Host.{Host}
use nomad_driver_systemd.Manager.{Manager}
use nomad_driver_systemd.Manager.Jobs.{unit_state}
use nomad_driver_systemd.Handler.{
  Handler, check_task_state, handle_state_change, begin_state_change, publish_exit, close_wait_ch,
}
use nomad_driver_systemd.Handler.Observe.{check_task_state_cases, check_task_state-is_exited}

-- Why the loop looks at the unit: at its start, after a wake, or after a tick of the safety net.
pub data Trigger : Type 0 where
  started woken ticked : Trigger

module _ ⦃h : Host⦄ where
  open h use {World}

  -- What the loop receives, with the Manager and the world that it then finds.
  pub data PollEvent : Type 0 where
    looks : Trigger → Manager → World → PollEvent
    cancelled : PollEvent

  unfoldable pub poll : List PollEvent → Handler → Handler
  poll [] th = th
  poll (cancelled ∷ events) th = record th { watching = false }
  poll (looks _ m w ∷ events) th =
      let (done, th', _) = check_task_state m th w in
      elim done [ true ↦ record th' { watching = false } | false ↦ poll events th' ]

  -- pollTaskState, which looks once before it waits.
  unfoldable pub poll_task_state : Manager → World → List PollEvent → Handler → Handler
  unfolding poll
  poll_task_state m w events th = poll (looks started m w ∷ events) th

  -- A look, before the loop is cancelled, that finds the unit in a terminal state.
  abbrev pub Seen : String → Bool → List PollEvent → Type 0
  Seen unit ctx [] = ⊥
  Seen unit ctx (cancelled ∷ events) = ⊥
  Seen unit ctx (looks _ m w ∷ events) =
      ((s : UnitState) × ((unit_state m ctx unit w).0 ≡ ok s) × (is_terminal s ≡ true))
      ⊎ Seen unit ctx events

  check_task_state-frame :
      (m : Manager) (th : Handler) (w : World)
      → ((check_task_state m th w).1.unit ≡ th.unit)
        × ((check_task_state m th w).1.ended ≡ th.ended)
  unfolding check_task_state handle_state_change begin_state_change publish_exit close_wait_ch
  check_task_state-frame m th w = ground arith

  module _ (t : Trigger) (m : Manager) (w : World) (events : List PollEvent) (th : Handler) where
    -- Every answer that the look can have got is of a unit that has not stopped.
    abbrev Running : Type 0
    Running = (s : UnitState) → (unit_state m th.ended th.unit w).0 ≡ ok s → is_terminal s ≡ false

    poll_more :
        (check_task_state m th w).0 ≡ false
        → poll (looks t m w ∷ events) th ≡ poll events (check_task_state m th w).1
    unfolding poll
    poll_more e = rw (e, poll) refl

    poll_done :
        (check_task_state m th w).0 ≡ true → is_exited (poll (looks t m w ∷ events) th).state ≡ true
    unfolding poll
    poll_done e = ground (arith, check_task_state-is_exited m th w)

    look_more :
        (check_task_state m th w).0 ≡ false
        → Running
        → (is_exited (poll events (check_task_state m th w).1).state ≡ true)
          ↔ Seen (check_task_state m th w).1.unit (check_task_state m th w).1.ended events
        → (is_exited (poll (looks t m w ∷ events) th).state ≡ true)
          ↔ Seen th.unit th.ended (looks t m w ∷ events)
    look_more e running (to, from) =
        let (u, c) = check_task_state-frame m th w in
        (
          λ x. inr (
              subst (λ b. Seen th.unit b events) c
                (subst (λ v. Seen v (check_task_state m th w).1.ended events) u
                  (to (ap (λ k. is_exited k.state) (sym (poll_more e)) ∙ x)))),
          λ s. elim s [
            | inl (k, q, z) ↦ absurd (cc (running k q))
            | inr later ↦
                ap (λ k. is_exited k.state) (poll_more e)
                ∙ from (
                    subst (λ b. Seen (check_task_state m th w).1.unit b events) (sym c)
                      (subst (λ v. Seen v th.ended events) (sym u) later))
          ],
        )

  poll-Seen :
      (events : List PollEvent) (th : Handler)
      → is_exited th.state ≡ false
      → (is_exited (poll events th).state ≡ true) ↔ Seen th.unit th.ended events
  unfolding poll
  poll-Seen [] th n = (λ e. cc, λ s. absurd s)
  poll-Seen (cancelled ∷ events) th n = (λ e. cc, λ s. absurd s)
  poll-Seen (looks t m w ∷ events) th n = elim (check_task_state_cases m th w n) [
    | inl (e, q, d, same) ↦
        look_more t m w events th d (λ s p. cc)
          (poll-Seen events (check_task_state m th w).1
            (sym (check_task_state-is_exited m th w) ∙ d))
    | inr (inl (s, q, live, d, same)) ↦
        look_more t m w events th d (λ k p. ground arith)
          (poll-Seen events (check_task_state m th w).1
            (sym (check_task_state-is_exited m th w) ∙ d))
    | inr (inr (s, q, over, d, _, _)) ↦ (λ x. inl (s, q, over), λ x. poll_done t m w events th d)
  ]

  -- A task that has not exited when its polling starts has exited afterwards exactly if some look at
  -- its unit, the first, after a wake or after a tick, and before the loop is cancelled, finds the
  -- unit in a terminal state.
  pub poll_task_state-Seen :
      (m : Manager) (w : World) (events : List PollEvent) (th : Handler)
      → is_exited th.state ≡ false
      → (is_exited (poll_task_state m w events th).state ≡ true)
        ↔ Seen th.unit th.ended (looks started m w ∷ events)
  unfolding poll_task_state
  poll_task_state-Seen m w events th n = poll-Seen (looks started m w ∷ events) th n
