-- ===== src/Manager/Sections.antt =====
-- pkg/systemd/unit.go and journal.go: the Manager's operations as sequences of its critical sections.
use nomad_driver_systemd.Prelude.{ℕ, String, Bool, ◌≡◌, refl, ◌⊎◌, inl, inr, arith, Bool-cases}
use nomad_driver_systemd.Errors.{Result-cases}
use nomad_driver_systemd.Host.{Host}
use nomad_driver_systemd.Manager.{
  Manager, enter_unit, register_unit, store_control_group, control_group_of, registered, get_conn,
  op_context, property_timeout, cache_unit_properties,
}
use nomad_driver_systemd.Manager.Jobs.{stop_unit, kill_unit}
use nomad_driver_systemd.Manager.Journal.{stream_logs, attach_reader}
use nomad_driver_systemd.Manager.Steps.{Reach, here, next, enters, caches, wakes, attaches}

pub Reach-trans : {m n k : Manager} → Reach m n → Reach n k → Reach m k
Reach-trans r here = r
Reach-trans r (next q s) = next (Reach-trans r q) s

module _ ⦃h : Host⦄ where
  open h use {World}

  pub cache_unit_properties_cases :
      (ctx : Bool) (v : String) (m : Manager) (w : World)
      → ((cache_unit_properties ctx v m w).0 ≡ m)
        ⊎ ((path : String) × (t : ℕ) × ((cache_unit_properties ctx v m w).0
              ≡ store_control_group v path t m))
  unfolding cache_unit_properties
  cache_unit_properties_cases ctx v m w = elim (Result-cases (get_conn m w)) [
    | inr (e, q) ↦ inl (rw (q, cache_unit_properties) refl)
    | inl (k, q) ↦
        elim (Result-cases (h.get_unit_properties (op_context m ctx property_timeout) k v w).0) [
          | inr (e, p) ↦ inl (rw (q, cache_unit_properties) (rw p refl))
          | inl (props, p) ↦ inr (
            control_group_of props,
            (h.now (h.get_unit_properties (op_context m ctx property_timeout) k v w).1).0,
            rw (q, cache_unit_properties) (rw p refl),
          )
        ]
  ]

  pub stream_logs_cases :
      (m : Manager) (v : String) (w : World)
      → ((stream_logs m v w).1 ≡ m) ⊎ ((stream_logs m v w).1 ≡ (attach_reader v m).1)
  unfolding stream_logs
  stream_logs_cases m v w = elim (Bool-cases (registered m v)) [
    | inr n ↦ inl (rw (n, stream_logs) refl)
    | inl y ↦ elim (Result-cases (h.open_journal w).0) [
      | inr (e, q) ↦ inl (rw (y, stream_logs) (rw q refl))
      | inl (j, q) ↦ elim (Result-cases (h.add_match j v (h.open_journal w).1).0) [
        | inr (e, p) ↦ inl (rw (y, stream_logs) (rw q (rw p refl)))
        | inl (u, p) ↦ inr (rw (y, stream_logs) (rw q (rw p (ground arith))))
      ]
    ]
  ]

  pub cache_unit_properties-Reach :
      (ctx : Bool) (v : String) (m : Manager) (w : World)
      → Reach m (cache_unit_properties ctx v m w).0
  cache_unit_properties-Reach ctx v m w = elim (cache_unit_properties_cases ctx v m w) [
    | inl same ↦ rw same here
    | inr (path, t, stored) ↦ rw stored (next here (caches v path t))
  ]

  pub register_unit-Reach :
      (ctx : Bool) (unit : String) (m : Manager) (w : World)
      → Reach m (register_unit ctx unit m w).0
  unfolding register_unit
  register_unit-Reach ctx unit m w =
      Reach-trans (next here (enters unit))
        (cache_unit_properties-Reach ctx unit (enter_unit unit m) w)

  pub stream_logs-Reach : (m : Manager) (v : String) (w : World) → Reach m (stream_logs m v w).1
  stream_logs-Reach m v w = elim (stream_logs_cases m v w) [
    | inl same ↦ rw same here
    | inr attached ↦ rw attached (next here (attaches v))
  ]

  pub stop_unit-Reach :
      (m : Manager) (ctx : Bool) (unit : String) (w : World) → Reach m (stop_unit m ctx unit w).1
  unfolding stop_unit
  stop_unit-Reach m ctx unit w = next here (wakes unit)

  pub kill_unit-Reach :
      (m : Manager) (ctx : Bool) (unit : String) (w : World) → Reach m (kill_unit m ctx unit w).1
  unfolding kill_unit
  kill_unit-Reach m ctx unit w = next here (wakes unit)
