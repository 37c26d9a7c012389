-- ===== src/Watch/Tracked.antt =====
-- plugin/task.go, pkg/task/state.go and pkg/systemd/unit.go: the exit of any task that a Driver tracks.
use nomad_driver_systemd.Prelude.{
  ℕ, String, Bool, true, false, List, some, ◌≡◌, ◌⊎◌, refl, sym, ◌∙◌,
}
use nomad_driver_systemd.Prelude.Map.{lookup}
use nomad_driver_systemd.Units.{UnitState, ExitResult, is_exited}
use nomad_driver_systemd.Host.{Host}
use nomad_driver_systemd.Manager.{Manager}
use nomad_driver_systemd.Handler.{Handler, WaitClosed}
use nomad_driver_systemd.Driver.{Driver, new_driver}
use nomad_driver_systemd.Driver.Managing.{Reach-Managed}
use nomad_driver_systemd.Driver.Steps as Drivers
use nomad_driver_systemd.Driver.Teardown.{deliver}
use nomad_driver_systemd.Watch.{Watch, looking, Reach, AllPrompt, AllOwn}
use nomad_driver_systemd.Watch.Awake.{Begins, owed, Reach-owed}
use nomad_driver_systemd.Watch.Kept.{AllCalm, Reach-Listing}
use nomad_driver_systemd.Watch.Progress.{Reach-delivered}
use nomad_driver_systemd.Watch.Quick.{Answers}
use nomad_driver_systemd.Watch.Reached.{Managed-Wakes}

-- The Handler's loop is about to look at its unit, which is in a terminal state or not; reports may
-- be on their way.
abbrev pub looks : Bool → List String → Driver → Handler → Watch
looks terminal queued d th = record {
  manager = d.managers th.units;
  handler = th;
  terminal = terminal;
  queued = queued;
  phase = looking;
  unsure = false;
}

module _ ⦃h : Host⦄ where
  open h use {World}

  module _ (ms : ℕ → Manager) {d : Driver} (r : Drivers.Reach (new_driver ms) d) (calm : AllCalm r)
      (id : String) (th : Handler) (c : ℕ) (t : lookup id d.tasks ≡ some th)
      (g : d.systemd_mgr ≡ some th.units) (e : th.wake_ch ≡ some c) (terminal : Bool)
      (queued : List String) where
    begins : Begins c (looks terminal queued d th)
    begins =
        let (c', a, l) = (Reach-Listing ms r calm).waits id th th.units t g refl in
        record {
          phase = refl;
          channel = l ∙ sym a ∙ e;
          waits = e;
          wakes = Managed-Wakes th.units (Reach-Managed ms r) g;
          sound = (Drivers.Reach-Owned ms r).sound id th t;
        }

    -- A task that is tracked on the Manager in use, in any state that a Driver reaches from New, by
    -- any sequence of RPCs, polls of tracked tasks and work of the Managers' own goroutines, and its
    -- polling loop, about to look: from then on, whatever the loops and the Manager do while the unit
    -- stays registered, whenever the unit is in a terminal state and the exit is not published, a
    -- report of the unit is on its way, or a wake waits in the unit's channel, or the loop is about to
    -- look or has the terminal state in hand, or since then, after the loop's last answer if it had
    -- one, a lookup has failed or a notification was lost.
    pub Reach-owed_tracked :
        {s : Watch}
        → Reach c (looks terminal queued d th) s
        → s.terminal ≡ true
        → is_exited s.handler.state ≡ false
        → owed c s ≡ true
    Reach-owed_tracked run = Reach-owed c begins run

    -- A task that is tracked on the Manager in use, in any state that a Driver reaches from New, by any
    -- sequence of RPCs, polls of tracked tasks and work of the Managers' own goroutines, and its polling
    -- loop, about to look: from then on, whatever the loops and the Manager do while the unit stays
    -- registered, whenever the unit is in a terminal state, and a lookup can answer with it, steps of
    -- the loops lead to a state in which waitCh is closed and an exit result is there, which is what
    -- WaitTask's receivers get whose contexts have not ended; and unless since then, after the loop's
    -- last answer if it had one, a lookup has failed or a notification was lost, the steps are the
    -- receiving of reports and wakes and what follows a wake, with no wait for the ticker.
    pub Reach-delivers :
        {s : Watch}
        → Reach c (looks terminal queued d th) s
        → (w : World) (u : UnitState) → Answers c s w u
        → (x : Watch) × (q : Reach c s x) × AllOwn c q
          × WaitClosed x.handler
          × ((s.unsure ≡ true) ⊎ AllPrompt c q)
          × (k : ExitResult) × (deliver false x.handler ≡ some k)
    Reach-delivers run w u a = Reach-delivered c begins run w u a
