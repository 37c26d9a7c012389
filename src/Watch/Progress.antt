-- ===== src/Watch/Progress.antt =====
-- The exit of a watched task is always within reach of its polling loop.
use nomad_driver_systemd.Prelude.{
  ℕ, ◌⊎◌, true, false, some, ◌≡◌, refl, arith, inl, inr, ◌∙◌, ap, Option-cases, Bool-cases,
}
use nomad_driver_systemd.Units.{UnitState, ExitResult, is_terminal, is_exited}
use nomad_driver_systemd.Host.{Host}
use nomad_driver_systemd.Manager.Jobs.{unit_state}
use nomad_driver_systemd.Handler.{Handler, task_status, WaitClosed}
use nomad_driver_systemd.Driver.Teardown.{deliver}
use nomad_driver_systemd.Watch.{
  Phase, looking, handling, waiting, finished, Watch, handled, handles, ticks, AllPrompt, AllOwn,
  Reach, here, next,
}
use nomad_driver_systemd.Watch.Awake.{
  Step-Awake, Awake, Begins, Begins-Awake, Reach-Awake, handle_state_change-unit,
  handle_state_change-is_exited,
}
use nomad_driver_systemd.Watch.Quick.{
  Quick, Answers, join, join-AllPrompt, join-AllOwn, AllPrompt-AllOwn, handling-Quick,
  looking-Quick, waiting-Quick,
}

module _ ⦃h : Host⦄ (c : ℕ) where
  open h use {World}

  abbrev Exit : Watch → Type 0
  Exit s =
      (t : Watch) × (r : Reach c s t) × (is_exited t.handler.state ≡ true)
      × AllOwn c r
      × ((s.unsure ≡ true) ⊎ AllPrompt c r)

  quick : {s : Watch} → Quick c s → Exit s
  quick (t, r, x, a) = (t, r, x, AllPrompt-AllOwn c r a, inr a)

  waiting-Exit :
      (s : Watch) (w : World) (u : UnitState)
      → s.phase ≡ waiting
      → is_exited s.handler.state ≡ false
      → Answers c s w u
      → Awake c s
      → Exit s
  waiting-Exit s w u p n a v = elim (Bool-cases s.unsure) [
    | inr k ↦ quick (waiting-Quick c s.queued s w u refl p n k a v)
    | inl k ↦
        let (t, r, x, o) = looking-Quick c (record s { phase = looking }) w u refl n a in
        (
          t,
          join c (next here (ticks p)) r,
          x,
          join-AllOwn c (next here (ticks p)) r (tt, tt) (AllPrompt-AllOwn c r o),
          inl k,
        )
  ]

  -- With a terminal answer in hand the loop publishes; with an older one it waits, and looks again.
  handling-Exit :
      (s : Watch) (w : World) (u k : UnitState)
      → s.phase ≡ handling k
      → is_exited s.handler.state ≡ false
      → Answers c s w u
      → Awake c s
      → Exit s
  unfolding handled
  handling-Exit s w u k p n (a, same, t) v =
      let (unit, ended) = handle_state_change-unit s.manager k s.handler w in
      let x = handle_state_change-is_exited s.manager k s.handler w n in
      elim (Bool-cases (is_terminal k)) [
        | inl e ↦ quick (handling-Quick c s w k p n e)
        | inr e ↦
            let (z, r, y, own, o) =
              waiting-Exit (handled k w s) w u (ground arith) (x ∙ e)
                (
                  ap (λ b. (unit_state s.manager b (handled k w s).handler.unit w).0) ended
                      ∙ ap (λ b. (unit_state s.manager s.handler.ended b w).0) unit
                      ∙ a,
                  same,
                  t,
                )
                (Step-Awake c (handles w k p) v) in
            (
              z,
              join c (next here (handles w k p)) r,
              y,
              join-AllOwn c (next here (handles w k p)) r (tt, tt) own,
              elim o [
                | inl i ↦ inl i
                | inr i ↦ inr (join-AllPrompt c (next here (handles w k p)) r (tt, tt) i)
              ],
            )
      ]

  any-Exit : (s : Watch) (w : World) (u : UnitState) → Awake c s → Answers c s w u → Exit s
  any-Exit s w u v a = elim (Bool-cases (is_exited s.handler.state)) [
    | inl x ↦ (s, here, x, tt, inr tt)
    | inr n ↦ by_phase s.phase refl n
  ]
    where
      by_phase : (p : Phase) → s.phase ≡ p → is_exited s.handler.state ≡ false → Exit s
      by_phase looking e n = quick (looking-Quick c s w u e n a)
      by_phase (handling k) e n = handling-Exit s w u k e n a v
      by_phase waiting e n = waiting-Exit s w u e n a v
      by_phase finished e n = absurd (ground (arith, v.live))

  deliver-some :
      (th : Handler) (r : ExitResult) → th.exit_result ≡ some r → deliver false th ≡ some r
  unfolding deliver task_status
  deliver-some th r e = ground arith

  -- A watched task from its first look on: whenever the unit is in a terminal state, and a lookup can
  -- answer with it, steps of the loops lead to a state in which waitCh is closed and an exit result
  -- is there, which is what WaitTask's receivers get whose contexts have not ended; and unless a
  -- lookup has failed or a notification was lost since the loop last had an answer, the steps are
  -- the receiving of reports and wakes and what follows a wake, with no wait for the ticker.
  pub Reach-delivered :
      {s t : Watch}
      → Begins c s
      → Reach c s t
      → (w : World) (u : UnitState) → Answers c t w u
      → (e : Watch) × (q : Reach c t e) × AllOwn c q
        × WaitClosed e.handler
        × ((t.unsure ≡ true) ⊎ AllPrompt c q)
        × (r : ExitResult) × (deliver false e.handler ≡ some r)
  Reach-delivered v r w u a =
      let awake = Reach-Awake c (Begins-Awake c v) r in
      let (z, q, x, own, o) = any-Exit _ w u awake a in
      let sound = (Reach-Awake c awake q).sound in
      elim (Option-cases z.handler.exit_result) [
        | inl n ↦ absurd (sound.result.0 (ground arith) n)
        | inr (k, g) ↦ (z, q, own, ground (arith, sound.closed), o, k, deliver-some z.handler k g)
      ]
