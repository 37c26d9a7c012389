-- ===== src/Manager/Steps.antt =====
-- The changes of state of pkg/systemd's Manager as a step relation: its critical sections, in any
-- order and from any goroutines, and what holds after every sequence of them.
use nomad_driver_systemd.Prelude.{ℕ, suc, ◌<◌, String, false, some, ◌≡◌, refl, sym, arith, eq_iff}
use nomad_driver_systemd.Prelude.Map.{lookup}
use nomad_driver_systemd.Manager.{
  UnitEntry, Manager, new_manager, enter_unit, unregister_unit, wake_unit, store_control_group,
  update, wake_channel, set_tracker, shut,
}
use nomad_driver_systemd.Manager.Journal.{attach_reader}
use nomad_driver_systemd.Manager.Registry.{
  wake_channel-enter_unit, wake_channel-unregister_unit, wake_channel-store_control_group,
  wake_channel-attach_reader, wake_channel-set_tracker, wake_channel-shut,
}

pub data Step (m : Manager) : Manager → Type 0 where
  enters : (unit : String) → Step m (enter_unit unit m)
  caches : (unit path : String) (t : ℕ) → Step m (store_control_group unit path t m)
  unregisters : (unit : String) → Step m (unregister_unit unit m)
  wakes : (unit : String) → Step m (wake_unit unit m)
  receives : (c : ℕ) → Step m (record m { pending = update m.pending c false })
  attaches : (unit : String) → Step m (attach_reader unit m).1
  leaves : (n : ℕ) → m.journal_wg ≡ suc n → Step m (record m { journal_wg = n })
  reconnects : (c : ℕ) → Step m (record m { conn = some c })
  samples :
      (unit : String) (st : UnitEntry) (tracker : ℕ)
      → lookup unit m.units ≡ some st
      → Step m (set_tracker unit st tracker m)
  shuts : Step m (shut m)

pub data Reach (m : Manager) : Manager → Type 0 where
  here : Reach m m
  next : {n k : Manager} → Reach m n → Step n k → Reach m k

-- Wake channels: each was issued, and no two units share one.
pub record Wakes (m : Manager) : Type 0 where
  pub issued : (u : String) (c : ℕ) → wake_channel m u ≡ some c → c < m.next_wake
  pub distinct :
      (u v : String) (c : ℕ) → wake_channel m u ≡ some c → wake_channel m v ≡ some c → u ≡ v

Wakes-same :
    {m n : Manager}
    → m.next_wake ≡ n.next_wake
    → ((u : String) → wake_channel n u ≡ wake_channel m u)
    → Wakes m
    → Wakes n
Wakes-same {m} {n} e same v = record {
  issued = λ u c h. ground (arith, same u, v.issued u c);
  distinct = λ x y c h k. ground (arith, same x, same y, v.distinct x y c);
}

attach_reader-next_wake :
    (unit : String) (m : Manager) → (attach_reader unit m).1.next_wake ≡ m.next_wake
unfolding attach_reader
attach_reader-next_wake unit m = ground arith

shut-Wakes : (m : Manager) → Wakes (shut m)
shut-Wakes m = record {
  issued = λ u c h. ground (arith, wake_channel-shut m u);
  distinct = λ x y c h k. ground (arith, wake_channel-shut m x);
}

pub Step-Wakes : {m n : Manager} → Step m n → Wakes m → Wakes n
unfolding enter_unit unregister_unit store_control_group wake_unit set_tracker wake_channel
Step-Wakes {m} (enters unit) v = record {
  issued = λ u c h. ground (arith, wake_channel-enter_unit unit m u, v.issued u c);
  distinct = λ x y c h k. ground (
    arith,
    wake_channel-enter_unit unit m x,
    wake_channel-enter_unit unit m y,
    v.distinct x y c,
    v.issued x c,
    v.issued y c,
    eq_iff unit x,
    eq_iff unit y,
  );
}
Step-Wakes {m} (caches unit path t) v =
    Wakes-same refl (wake_channel-store_control_group unit path t m) v
Step-Wakes {m} (unregisters unit) v = record {
  issued = λ u c h. ground (arith, wake_channel-unregister_unit unit m u, v.issued u c);
  distinct = λ x y c h k. ground (
    arith,
    wake_channel-unregister_unit unit m x,
    wake_channel-unregister_unit unit m y,
    v.distinct x y c,
  );
}
Step-Wakes {m} (wakes unit) v = Wakes-same refl (λ u. refl) v
Step-Wakes {m} (receives c) v = Wakes-same refl (λ u. refl) v
Step-Wakes {m} (attaches unit) v =
    Wakes-same (sym (attach_reader-next_wake unit m)) (wake_channel-attach_reader unit m) v
Step-Wakes {m} (leaves n e) v = Wakes-same refl (λ u. refl) v
Step-Wakes {m} (reconnects c) v = Wakes-same refl (λ u. refl) v
Step-Wakes {m} (samples unit st tracker e) v =
    Wakes-same refl (λ u. wake_channel-set_tracker unit st tracker m u e) v
Step-Wakes {m} shuts v = shut-Wakes m

new_manager-Wakes : (c : ℕ) → Wakes (new_manager c)
unfolding new_manager wake_channel lookup
new_manager-Wakes c = record { issued = λ u c h. cc; distinct = λ x y c h k. cc }

-- In every state that a Manager reaches from its creation, by any sequence of its critical
-- sections, the wake channel of every registered unit was issued, and no two units share one.
pub Reach-Wakes : (c : ℕ) {m : Manager} → Reach (new_manager c) m → Wakes m
Reach-Wakes c here = new_manager-Wakes c
Reach-Wakes c (next r s) = Step-Wakes s (Reach-Wakes c r)
