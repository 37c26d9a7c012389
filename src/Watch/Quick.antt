-- ===== src/Watch/Quick.antt =====
-- Prompt runs of the loops of a watched task to its exit.
use nomad_driver_systemd.Prelude.{
  ℕ, String, List, [], ◌∷◌, Bool, true, false, ◌≡◌, refl, arith, ◌∙◌, ap,
}
use nomad_driver_systemd.Errors.{ok}
use nomad_driver_systemd.Units.{UnitState, is_terminal, is_exited}
use nomad_driver_systemd.Host.{Host}
use nomad_driver_systemd.Manager.{Manager, wake_unit, get_conn, op_context}
use nomad_driver_systemd.Manager.Jobs.{unit_state}
use nomad_driver_systemd.Watch.{
  looking, handling, waiting, Watch, handled, asks, handles, receives, dispatches, Step, Prompt,
  changes, reports, loses, works, ticks, fails, knows, Own, AllOwn, AllPrompt, Reach, here, next,
}
use nomad_driver_systemd.Watch.Awake.{Step-Awake, Awake, handle_state_change-is_exited}

module _ ⦃h : Host⦄ (c : ℕ) where
  open h use {World}

  -- A prompt run to the exit.
  abbrev pub Quick : Watch → Type 0
  Quick s = (t : Watch) × (r : Reach c s t) × (is_exited t.handler.state ≡ true) × AllPrompt c r

  -- A lookup at w answers with a terminal state, which is the state that the unit is in.
  abbrev pub Answers : Watch → World → UnitState → Type 0
  Answers s w u =
      ((unit_state s.manager s.handler.ended s.handler.unit w).0 ≡ ok u)
      × (is_terminal u ≡ s.terminal)
      × (s.terminal ≡ true)

  pub join : {s t u : Watch} → Reach c s t → Reach c t u → Reach c s u
  join r here = r
  join r (next q st) = next (join r q) st

  pub join-AllPrompt :
      {s t u : Watch} (r : Reach c s t) (q : Reach c t u)
      → AllPrompt c r
      → AllPrompt c q
      → AllPrompt c (join r q)
  unfolding join
  join-AllPrompt r here a b = a
  join-AllPrompt r (next q st) a (b, p) = (join-AllPrompt r q a b, p)

  pub join-AllOwn :
      {s t u : Watch} (r : Reach c s t) (q : Reach c t u)
      → AllOwn c r
      → AllOwn c q
      → AllOwn c (join r q)
  unfolding join
  join-AllOwn r here a b = a
  join-AllOwn r (next q st) a (b, o) = (join-AllOwn r q a b, o)

  Prompt-Own : {s t : Watch} (st : Step c s t) → Prompt c st → Own c st
  Prompt-Own (changes b) p = p
  Prompt-Own (reports unit) p = p
  Prompt-Own (dispatches unit rest q) p = p
  Prompt-Own (loses unit rest q) p = p
  Prompt-Own (works t s) p = p
  Prompt-Own (receives q b) p = p
  Prompt-Own (ticks q) p = absurd p
  Prompt-Own (asks w u q n a e) p = p
  Prompt-Own (fails w e q n a) p = p
  Prompt-Own (handles w u q) p = p
  Prompt-Own (knows q x) p = p

  pub AllPrompt-AllOwn : {s t : Watch} (r : Reach c s t) → AllPrompt c r → AllOwn c r
  AllPrompt-AllOwn here a = tt
  AllPrompt-AllOwn (next r st) (a, p) = (AllPrompt-AllOwn r a, Prompt-Own st p)

  promptly : {s t : Watch} (st : Step c s t) → Prompt c st → Quick t → Quick s
  promptly st p (u, q, x, a) =
      (u, join (next here st) q, x, join-AllPrompt (next here st) q (tt, p) a)

  pub handling-Quick :
      (s : Watch) (w : World) (u : UnitState)
      → s.phase ≡ handling u
      → is_exited s.handler.state ≡ false
      → is_terminal u ≡ true
      → Quick s
  unfolding handled
  handling-Quick s w u p n t = (
    handled u w s,
    next here (handles w u p),
    handle_state_change-is_exited s.manager u s.handler w n ∙ t,
    (tt, tt),
  )

  pub looking-Quick :
      (s : Watch) (w : World) (u : UnitState)
      → s.phase ≡ looking
      → is_exited s.handler.state ≡ false
      → Answers s w u
      → Quick s
  looking-Quick s w u p n (a, same, t) =
      promptly (asks w u p n a same) tt
        (handling-Quick (record s { phase = handling u; unsure = false }) w u refl n (same ∙ t))

  unit_state-pending :
      (m : Manager) (f : ℕ → Bool) (b : Bool) (unit : String) (w : World)
      → unit_state (record m { pending = f }) b unit w ≡ unit_state m b unit w
  unfolding unit_state get_conn op_context
  unit_state-pending m f b unit w = refl

  -- The loop waits: the reports on their way are received, and then a wake is in the channel.
  pub waiting-Quick :
      (queue : List String) (s : Watch) (w : World) (u : UnitState)
      → s.queued ≡ queue
      → s.phase ≡ waiting
      → is_exited s.handler.state ≡ false
      → s.unsure ≡ false
      → Answers s w u
      → Awake c s
      → Quick s
  unfolding wake_unit
  waiting-Quick [] s w u q p n k (a, same, t) v =
      let pending : s.manager.pending c ≡ true = ground (arith, v.awake t n) in
      promptly (receives p pending) tt (
        looking-Quick _ w u refl n (
          ap (λ r. r.0) (unit_state-pending s.manager _ s.handler.ended s.handler.unit w) ∙ a,
          same,
          t,
        ))
  waiting-Quick (x ∷ rest) s w u q p n k (a, same, t) v = promptly (dispatches x rest q) tt (
      waiting-Quick rest (record s { queued = rest; manager = wake_unit x s.manager }) w u refl p n
        k
        (
          ap (λ r. r.0) (unit_state-pending s.manager _ s.handler.ended s.handler.unit w) ∙ a,
          same,
          t,
        )
        (Step-Awake c (dispatches x rest q) v))
