-- ===== src/Watch/Background.antt =====
-- pkg/systemd/unit.go and pkg/task/handle.go: the work that leaves the wake channels as they are.
use nomad_driver_systemd.Prelude.{String, ◌≡◌, refl, ◌∙◌, arith}
use nomad_driver_systemd.Manager.{Manager, wake_channel, unit_locked}
use nomad_driver_systemd.Manager.Registry.{
  wake_channel-store_control_group, wake_channel-attach_reader, wake_channel-set_tracker,
}
use nomad_driver_systemd.Manager.Steps as Managers
use nomad_driver_systemd.Handler.{
  Handler, begin_state_change, publish_exit, set_exit_result, set_started_at, stop,
}
use nomad_driver_systemd.Handler.Exit.{
  Section, Sections, observes, publishes, records, starts, stops, watches, done,
}
use nomad_driver_systemd.Driver.Channels.{wake_unit-channel}

-- The critical sections of a Manager's goroutines: not those of the RPCs, which register and unregister
-- units, nor of SetConfig, which stops the Manager.
abbrev pub Background : {m n : Manager} → Managers.Step m n → Type 0
Background (Managers.enters _) = ⊥
Background (Managers.unregisters _) = ⊥
Background Managers.shuts = ⊥
Background (Managers.receives _) = Unit
Background (Managers.caches _ _ _) = Unit
Background (Managers.wakes _) = Unit
Background (Managers.attaches _) = Unit
Background (Managers.leaves _ _) = Unit
Background (Managers.reconnects _) = Unit
Background (Managers.samples _ _ _ _) = Unit

pub Background-channel :
    {m n : Manager} (s : Managers.Step m n) (u : String)
    → Background s
    → wake_channel n u ≡ wake_channel m u
unfolding wake_channel unit_locked
Background-channel (Managers.enters v) u b = absurd b
Background-channel (Managers.unregisters v) u b = absurd b
Background-channel Managers.shuts u b = absurd b
Background-channel (Managers.receives c) u b = refl
Background-channel {m} (Managers.caches v path t) u b =
    wake_channel-store_control_group v path t m u
Background-channel {m} (Managers.wakes v) u b = wake_unit-channel v m u
Background-channel {m} (Managers.attaches v) u b = wake_channel-attach_reader v m u
Background-channel (Managers.leaves n e) u b = refl
Background-channel (Managers.reconnects c) u b = refl
Background-channel {m} (Managers.samples v st tracker e) u b =
    wake_channel-set_tracker v st tracker m u e

Section-watch : {th k : Handler} → Section th k → (k.units ≡ th.units) × (k.wake_ch ≡ th.wake_ch)
unfolding begin_state_change publish_exit set_started_at set_exit_result stop
Section-watch (observes s) = ground arith
Section-watch (publishes r t) = ground arith
Section-watch (records r t x) = ground arith
Section-watch (starts t) = ground arith
Section-watch stops = ground arith
Section-watch (watches b) = ground arith

pub Sections-watch :
    {th k : Handler} → Sections th k → (k.units ≡ th.units) × (k.wake_ch ≡ th.wake_ch)
Sections-watch done = (refl, refl)
Sections-watch (Sections.then r s) =
    let (a, b) = Section-watch s in let (c, d) = Sections-watch r in (a ∙ c, b ∙ d)
