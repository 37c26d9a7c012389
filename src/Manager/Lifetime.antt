-- ===== src/Manager/Lifetime.antt =====
-- What is left of pkg/systemd's Manager after Stop.
use nomad_driver_systemd.Prelude.{String, true, false, none, ◌≡◌, ◌∙◌, refl, arith}
use nomad_driver_systemd.Manager.{
  Manager, enter_unit, unregister_unit, wake_unit, store_control_group, set_tracker, shut,
}
use nomad_driver_systemd.Manager.Journal.{attach_reader}
use nomad_driver_systemd.Manager.Registry.{
  reader, reader-enter_unit, reader-unregister_unit, reader-store_control_group,
  reader-attach_reader, reader-set_tracker, reader-shut,
}
use nomad_driver_systemd.Manager.Steps.{
  Step, enters, caches, unregisters, wakes, receives, attaches, leaves, reconnects, samples, shuts,
  Reach, here, next,
}

-- Its own context is cancelled, no unit has a journal reader, and none can get one.
pub record Stopped (m : Manager) : Type 0 where
  pub ended : m.shut_down ≡ true
  pub stopping : m.stopping ≡ true
  pub refuses : (unit : String) → (attach_reader unit m).0 ≡ false
  pub idle : (u : String) → reader m u ≡ none

refused : (unit : String) (m : Manager) → m.stopping ≡ true → (attach_reader unit m).0 ≡ false
unfolding attach_reader
refused unit m s = ground arith

stopped :
    {m : Manager}
    → m.shut_down ≡ true
    → m.stopping ≡ true
    → ((u : String) → reader m u ≡ none)
    → Stopped m
stopped {m} e s i = record { ended = e; stopping = s; refuses = λ unit. refused unit m s; idle = i }

attach_reader-flags :
    (unit : String) (m : Manager)
    → ((attach_reader unit m).1.shut_down ≡ m.shut_down)
      × ((attach_reader unit m).1.stopping ≡ m.stopping)
unfolding attach_reader
attach_reader-flags unit m = ground arith

pub shut-Stopped : (m : Manager) → Stopped (shut m)
unfolding shut
shut-Stopped m = stopped refl refl (reader-shut m)

Step-Stopped : {m n : Manager} → Step m n → Stopped m → Stopped n
unfolding enter_unit unregister_unit store_control_group wake_unit set_tracker reader
Step-Stopped {m} (enters unit) v =
    stopped v.ended v.stopping (λ u. ground (arith, reader-enter_unit unit m u, v.idle u))
Step-Stopped {m} (caches unit path t) v =
    stopped v.ended v.stopping (λ u. reader-store_control_group unit path t m u ∙ v.idle u)
Step-Stopped {m} (unregisters unit) v =
    stopped v.ended v.stopping (λ u. ground (arith, reader-unregister_unit unit m u, v.idle u))
Step-Stopped {m} (wakes unit) v = stopped v.ended v.stopping v.idle
Step-Stopped {m} (receives c) v = stopped v.ended v.stopping v.idle
Step-Stopped {m} (attaches unit) v =
    let (e, s) = attach_reader-flags unit m in
    stopped (e ∙ v.ended) (s ∙ v.stopping)
      (λ u. ground (arith, reader-attach_reader unit m u, v.refuses unit, v.idle u))
Step-Stopped {m} (leaves n e) v = stopped v.ended v.stopping v.idle
Step-Stopped {m} (reconnects c) v = stopped v.ended v.stopping v.idle
Step-Stopped {m} (samples unit st tracker e) v =
    stopped v.ended v.stopping (λ u. reader-set_tracker unit st tracker m u e ∙ v.idle u)
Step-Stopped {m} shuts v = shut-Stopped m

pub Stopped-Reach : {m n : Manager} → Reach m n → Stopped m → Stopped n
Stopped-Reach here v = v
Stopped-Reach (next r s) v = Step-Stopped s (Stopped-Reach r v)

-- After Stop, whatever critical sections follow: the Manager's context stays cancelled, it is
-- stopping, it refuses every journal reader, and no unit has one.
pub Reach-Stopped : (m : Manager) {n : Manager} → Reach (shut m) n → Stopped n
Reach-Stopped m r = Stopped-Reach r (shut-Stopped m)
