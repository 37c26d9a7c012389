-- ===== src/Watch/Spares.antt =====
-- What the critical sections of a Manager leave of a watched unit.
use nomad_driver_systemd.Prelude.{ℕ, String, true, some, ◌≡◌, arith, ap, ◌∙◌}
use nomad_driver_systemd.Manager.{
  Manager, wake_channel, wake_unit, enter_unit, unregister_unit, store_control_group, set_tracker,
}
use nomad_driver_systemd.Manager.Journal.{attach_reader}
use nomad_driver_systemd.Manager.Registry.{
  wake_channel-enter_unit, wake_channel-unregister_unit, wake_channel-store_control_group,
  wake_channel-attach_reader, wake_channel-set_tracker,
}
use nomad_driver_systemd.Manager.Steps as Managers
use nomad_driver_systemd.Watch.{Spares}

attach_reader-pending : (unit : String) (m : Manager) → (attach_reader unit m).1.pending ≡ m.pending
unfolding attach_reader
attach_reader-pending unit m = ground arith

-- Such a critical section keeps the unit's channel, and a wake that waits in it.
pub Step-Spares :
    (unit : String) (c : ℕ) {m n : Manager} (t : Managers.Step m n)
    → Spares unit c t
    → Managers.Wakes m
    → wake_channel m unit ≡ some c
    → (wake_channel n unit ≡ some c) × (m.pending c ≡ true → n.pending c ≡ true)
unfolding enter_unit unregister_unit store_control_group wake_unit set_tracker
Step-Spares unit c {m} (Managers.enters v) s d e =
    (ground (arith, wake_channel-enter_unit v m unit), λ p. ground (arith, d.issued unit c))
Step-Spares unit c {m} (Managers.unregisters v) s d e =
    (ground (arith, wake_channel-unregister_unit v m unit), λ p. p)
Step-Spares unit c {m} (Managers.receives k) s d e = (unfold wake_channel in e, λ p. ground arith)
Step-Spares unit c Managers.shuts s d e = absurd s
Step-Spares unit c {m} (Managers.caches v path t) s d e =
    (wake_channel-store_control_group v path t m unit ∙ e, λ p. p)
Step-Spares unit c (Managers.wakes v) s d e = (unfold wake_channel in e, λ p. ground arith)
Step-Spares unit c {m} (Managers.attaches v) s d e =
    (wake_channel-attach_reader v m unit ∙ e, λ p. ap (λ f. f c) (attach_reader-pending v m) ∙ p)
Step-Spares unit c (Managers.leaves n l) s d e = (unfold wake_channel in e, λ p. p)
Step-Spares unit c (Managers.reconnects k) s d e = (unfold wake_channel in e, λ p. p)
Step-Spares unit c {m} (Managers.samples v st k l) s d e =
    (wake_channel-set_tracker v st k m unit l ∙ e, λ p. p)
