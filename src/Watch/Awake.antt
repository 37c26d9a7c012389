-- ===== src/Watch/Awake.antt =====
-- No exit is missed: what holds in every state of a watched task.
use nomad_driver_systemd.Prelude.{
  not, ℕ, String, Bool, true, false, ◌||◌, List, ◌∷◌, ◌++◌, [], some, ◌≡◌, refl, arith, eq_iff,
  ◌=?◌, ap, ◌∙◌,
}
use nomad_driver_systemd.Units.{UnitState, is_terminal, is_exited}
use nomad_driver_systemd.Units.Laws.{to_task_state_classifies}
use nomad_driver_systemd.Host.{Host}
use nomad_driver_systemd.Manager.{Manager, wake_channel, wake_unit}
use nomad_driver_systemd.Manager.Dispatch.{wake_unit-pending}
use nomad_driver_systemd.Manager.Steps as Managers
use nomad_driver_systemd.Handler.{
  Handler, handle_state_change, begin_state_change, publish_exit, close_wait_ch,
}
use nomad_driver_systemd.Handler.Exit.{Sound, Sections-Sound}
use nomad_driver_systemd.Handler.Observe.{handle_state_change-Sections}
use nomad_driver_systemd.Watch.{
  Phase, looking, handling, waiting, finished, Watch, handled, Step, changes, reports, dispatches,
  loses, works, receives, ticks, asks, fails, handles, knows, Reach, here, next, reported,
  looks_or_knows,
}
use nomad_driver_systemd.Watch.Spares.{Step-Spares}

-- Only a task that has not exited waits or has an answer in hand, and the loop returns with the exit.
abbrev fits : Phase → Bool → Bool
fits looking exited = true
fits (handling u) exited = not exited
fits waiting exited = not exited
fits finished exited = exited

reported-append :
    (unit v : String) (vs : List String)
    → reported unit (vs ++ v ∷ []) ≡ (reported unit vs || v =? unit)
reported-append unit v [] = ground arith
reported-append unit v (x ∷ vs) = ground (arith, reported-append unit v vs)

module _ ⦃h : Host⦄ where
  open h use {World}

  pub handle_state_change-unit :
      (m : Manager) (u : UnitState) (th : Handler) (w : World)
      → ((handle_state_change m u th w).0.unit ≡ th.unit)
        × ((handle_state_change m u th w).0.ended ≡ th.ended)
  unfolding handle_state_change begin_state_change publish_exit close_wait_ch
  handle_state_change-unit m u th w = ground arith

  pub handle_state_change-is_exited :
      (m : Manager) (u : UnitState) (th : Handler) (w : World)
      → is_exited th.state ≡ false
      → is_exited (handle_state_change m u th w).0.state ≡ is_terminal u
  unfolding handle_state_change begin_state_change publish_exit close_wait_ch
  handle_state_change-is_exited m u th w n = ground (arith, to_task_state_classifies u)

module _ ⦃h : Host⦄ (c : ℕ) where
  open h use {World}

  abbrev pub owed : Watch → Bool
  owed s =
      reported s.handler.unit s.queued || s.manager.pending c || looks_or_knows s.phase || s.unsure

  pub record Awake (s : Watch) : Type 0 where
    pub channel : wake_channel s.manager s.handler.unit ≡ some c
    pub wakes : Managers.Wakes s.manager
    pub sound : Sound s.handler
    pub live : fits s.phase (is_exited s.handler.state) ≡ true
    pub awake : s.terminal ≡ true → is_exited s.handler.state ≡ false → owed s ≡ true

  pub Step-Awake : {s t : Watch} → Step c s t → Awake s → Awake t
  unfolding handled
  Step-Awake {s} (changes b) v = record {
    channel = v.channel;
    wakes = v.wakes;
    sound = v.sound;
    live = v.live;
    awake = λ e n. ground (
      arith,
      reported-append s.handler.unit s.handler.unit s.queued,
      eq_iff s.handler.unit s.handler.unit,
    );
  }
  Step-Awake {s} (reports unit) v = record {
    channel = v.channel;
    wakes = v.wakes;
    sound = v.sound;
    live = v.live;
    awake = λ e n. ground (arith, reported-append s.handler.unit unit s.queued, v.awake e n);
  }
  Step-Awake {s} (dispatches unit rest q) v = record {
    channel = unfold wake_unit wake_channel in v.channel;
    wakes = Managers.Step-Wakes (Managers.wakes unit) v.wakes;
    sound = v.sound;
    live = v.live;
    awake = λ e n.
        ground
          (arith, wake_unit-pending unit s.handler.unit c s.manager v.wakes v.channel, v.awake e n);
  }
  Step-Awake {s} (loses unit rest q) v = record {
    channel = v.channel;
    wakes = v.wakes;
    sound = v.sound;
    live = v.live;
    awake = λ e n. ground arith;
  }
  Step-Awake {s} (works t spared) v =
      let (channel, kept) = Step-Spares s.handler.unit c t spared v.wakes v.channel in
      record {
        channel = channel;
        wakes = Managers.Step-Wakes t v.wakes;
        sound = v.sound;
        live = v.live;
        awake = λ e n. ground (arith, v.awake e n, kept);
      }
  Step-Awake {s} (receives p q) v = record {
    channel = unfold wake_channel in v.channel;
    wakes = Managers.Step-Wakes (Managers.receives c) v.wakes;
    sound = v.sound;
    live = refl;
    awake = λ e n. ground arith;
  }
  Step-Awake {s} (ticks p) v = record {
    channel = v.channel;
    wakes = v.wakes;
    sound = v.sound;
    live = refl;
    awake = λ e n. ground arith;
  }
  Step-Awake {s} (asks w u p n a t) v = record {
    channel = v.channel;
    wakes = v.wakes;
    sound = v.sound;
    live = ground arith;
    awake = λ e k. ground arith;
  }
  Step-Awake {s} (fails w e p n a) v = record {
    channel = v.channel;
    wakes = v.wakes;
    sound = v.sound;
    live = ground arith;
    awake = λ e k. ground arith;
  }
  Step-Awake {s} (handles w u p) v =
      let (unit, _) = handle_state_change-unit s.manager u s.handler w in
      let n : is_exited s.handler.state ≡ false = ground (arith, v.live) in
      let x = handle_state_change-is_exited s.manager u s.handler w n in
      record {
        channel = ap (wake_channel s.manager) unit ∙ v.channel;
        wakes = v.wakes;
        sound = Sections-Sound v.sound (handle_state_change-Sections s.manager u s.handler w);
        live = ground arith;
        awake = λ e k. ground (arith, v.awake e n);
      }
  Step-Awake {s} (knows p x) v = record {
    channel = v.channel;
    wakes = v.wakes;
    sound = v.sound;
    live = x;
    awake = λ e k. ground arith;
  }

  -- A watched task before the first look: its unit is registered with a channel of its own, which is
  -- the one that the Handler waits for.
  pub record Begins (s : Watch) : Type 0 where
    pub phase : s.phase ≡ looking
    pub channel : wake_channel s.manager s.handler.unit ≡ some c
    pub waits : s.handler.wake_ch ≡ some c
    pub wakes : Managers.Wakes s.manager
    pub sound : Sound s.handler

  pub Begins-Awake : {s : Watch} → Begins s → Awake s
  Begins-Awake {s} v = record {
    channel = v.channel;
    wakes = v.wakes;
    sound = v.sound;
    live = ground (arith, v.phase);
    awake = λ x n. ground (arith, v.phase);
  }

  pub Reach-Awake : {s t : Watch} → Awake s → Reach c s t → Awake t
  Reach-Awake v here = v
  Reach-Awake v (next r st) = Step-Awake st (Reach-Awake v r)

  -- A watched task from its first look on: whenever
  -- the unit is in a terminal state and the exit is not published, a report of the unit is on its
  -- way, or a wake waits in the unit's channel, or the loop is about to look or has the terminal
  -- state in hand, or since the loop last had an answer a lookup has failed or a notification was
  -- lost.
  pub Reach-owed :
      {s t : Watch}
      → Begins s
      → Reach c s t
      → t.terminal ≡ true
      → is_exited t.handler.state ≡ false
      → owed t ≡ true
  Reach-owed v r = (Reach-Awake (Begins-Awake v) r).awake
