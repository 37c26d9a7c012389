-- ===== src/Manager/Backoff.antt =====
-- The delay of pkg/systemd's reconnectLoop.
use native.Mathlib.Omega.{pow_step}
use nomad_driver_systemd.Prelude.{
  ℕ, suc, ◌*◌, ◌^◌, ◌≤◌, min, Bool, true, false, ◌||◌, List, [], ◌∷◌, if◌then◌else◌, refl, ap, ◌≡◌,
  ◌⊎◌, inl, inr, arith, Bool-cases,
}
use nomad_driver_systemd.Host.{Host}
use nomad_driver_systemd.Manager.{Manager, healthy}
use nomad_driver_systemd.Manager.Connect.{
  reconnect_interval, reconnect_backoff_max, reconnect_round, try_reconnect, ReconnectEvent,
  context_done, timer_fired, reconnect_loop,
}

-- A delay that the loop sleeps for.
abbrev pub Bounded : ℕ → Type 0
Bounded d = (reconnect_interval ≤ d) × (d ≤ reconnect_backoff_max)

module _ ⦃h : Host⦄ where
  open h use {World}

  abbrev pub ReconnectOutcome : ℕ → Manager → World → Type 0
  ReconnectOutcome backoff m w =
      Bounded (reconnect_round backoff m w).0
      × ((((healthy m w ≡ true) ⊎ ((try_reconnect m w).0 ≡ true))
            × ((reconnect_round backoff m w).0 ≡ reconnect_interval))
          ⊎ ((healthy m w ≡ false)
              × ((try_reconnect m w).0 ≡ false)
              × (backoff ≤ (reconnect_round backoff m w).0)
              × ((reconnect_round backoff m w).0 ≤ backoff * 2)
              × ((reconnect_round backoff m w).1 ≡ m)))

  -- A round of the loop after a delay within the bounds: the next delay is within them too; with a
  -- connection at hand or made by the round it is the first delay again, and otherwise it is not
  -- shorter than before, at most twice as long, and the Manager is as before.
  reconnect_round_cases :
      (backoff : ℕ) (m : Manager) (w : World) → Bounded backoff → ReconnectOutcome backoff m w
  unfolding reconnect_round try_reconnect
  reconnect_round_cases backoff m w b = elim (Bool-cases (healthy m w)) [
    | inl e ↦ (ground arith, inl (inl e, ground arith))
    | inr e ↦ elim (Bool-cases (try_reconnect m w).0) [
      | inl t ↦ (ground arith, inl (inr t, ground arith))
      | inr t ↦ (ground arith, inr (e, t, ground arith, ground arith, ground arith))
    ]
  ]

  -- A round finds a connection or makes one.
  abbrev pub connects : Manager → World → Bool
  connects m w = healthy m w || (try_reconnect m w).0

  -- The delays in closed form, after a streak of n failed rounds.
  abbrev pub doublings : ℕ → List ReconnectEvent → List ℕ
  doublings n [] = []
  doublings n (context_done ∷ events) = []
  doublings n (timer_fired m w ∷ events) =
      let k = if connects m w then 0 else suc n in
      min (reconnect_interval * 2 ^ k) reconnect_backoff_max ∷ doublings k events

  reconnect_round-doubles :
      (n : ℕ) (m : Manager) (w : World)
      → (reconnect_round (min (reconnect_interval * 2 ^ n) reconnect_backoff_max) m w).0
        ≡ min (reconnect_interval * 2 ^ (if connects m w then 0 else suc n)) reconnect_backoff_max
  unfolding reconnect_round
  reconnect_round-doubles n m w = ground (arith, pow_step 2 n)

  reconnect_loop-streak :
      (n : ℕ) (events : List ReconnectEvent)
      → reconnect_loop (min (reconnect_interval * 2 ^ n) reconnect_backoff_max) events
        ≡ doublings n events
  unfolding reconnect_loop
  reconnect_loop-streak n [] = refl
  reconnect_loop-streak n (context_done ∷ events) = refl
  reconnect_loop-streak n (timer_fired m w ∷ events) =
      let k = if connects m w then 0 else suc n in
      rw (reconnect_round-doubles n m w) (
        ap (λ r. min (reconnect_interval * 2 ^ k) reconnect_backoff_max ∷ r)
          (reconnect_loop-streak k events))

  -- The delays of reconnectLoop: after k failed rounds in a row, 10 seconds doubled k times, or 5
  -- minutes if that is less; a round that finds or makes a connection starts the count again.
  pub reconnect_loop-doublings :
      (events : List ReconnectEvent) → reconnect_loop reconnect_interval events ≡ doublings 0 events
  reconnect_loop-doublings events = reconnect_loop-streak 0 events
