-- ===== src/Manager/Sampling.antt =====
-- What ResourceStats of pkg/systemd/cgroup.go promises: its one error, and its Measured lists.
use nomad_driver_systemd.Prelude.{
  ◌⊎◌, ℕ, String, Bool, true, false, some, ◌≡◌, refl, inl, inr, arith, Bool-cases, Option-cases,
}
use nomad_driver_systemd.Prelude.Map.{lookup-insert_self}
use nomad_driver_systemd.Errors.{Error, err, is_ok, is_unit_not_registered, Result-cases}
use nomad_driver_systemd.Host.{Host}
use nomad_driver_systemd.Manager.{
  Manager, UnitEntry, unit_locked, registered, get_conn, store_control_group, cache_unit_properties,
  op_context, property_timeout,
}
use nomad_driver_systemd.Manager.Stats.{resource_stats, sample_at, is_stale}

store_control_group-registered :
    (unit path : String) (t : ℕ) (m : Manager) (st : UnitEntry)
    → unit_locked m unit ≡ some st
    → unit_locked (store_control_group unit path t m) unit
      ≡ some (record st { control_group = path; cached_at = some t })
unfolding store_control_group unit_locked
store_control_group-registered unit path t m st e = ground (
  arith,
  lookup-insert_self unit (record st { control_group = path; cached_at = some t }) m.units,
)

module _ ⦃h : Host⦄ where
  open h use {World, Float}

  -- Reading its properties does not unregister a unit.
  pub cache_unit_properties-registered :
      (ctx : Bool) (unit : String) (m : Manager) (w : World) (st : UnitEntry)
      → unit_locked m unit ≡ some st
      → (st' : UnitEntry) × (unit_locked (cache_unit_properties ctx unit m w).0 unit ≡ some st')
  unfolding cache_unit_properties
  cache_unit_properties-registered ctx unit m w st e = elim (Result-cases (get_conn m w)) [
    | inr (x, q) ↦ rw (q, cache_unit_properties) (st, e)
    | inl (c, q) ↦
        elim (Result-cases (h.get_unit_properties (op_context m ctx property_timeout) c unit w).0) [
          | inr (x, p) ↦ rw (q, cache_unit_properties) (rw p (st, e))
          | inl (props, p) ↦
              rw (q, cache_unit_properties)
                (rw p (_, store_control_group-registered unit _ _ m st e))
        ]
  ]

  sample_at-ok :
      (unit path : String) (m : Manager) (w : World) → is_ok (sample_at unit path m w).0 ≡ true
  unfolding sample_at
  sample_at-ok unit path m w = ground arith

  -- A registered unit always gets a sample; for any other the error is that it is not registered.
  pub resource_stats_cases :
      (m : Manager) (ctx : Bool) (unit : String) (w : World)
      → ((registered m unit ≡ true) × (is_ok (resource_stats m ctx unit w).0 ≡ true))
        ⊎ ((registered m unit ≡ false)
            × ((e : Error) × ((resource_stats m ctx unit w).0 ≡ err e)
                × (is_unit_not_registered e ≡ true)))
  unfolding resource_stats registered
  resource_stats_cases m ctx unit w = elim (Option-cases (unit_locked m unit)) [
    | inl n ↦
        inr (ground arith, rw (n, resource_stats) (_, refl, unfold is_unit_not_registered in refl))
    | inr (st, e) ↦ inl (
      ground arith,
      elim (Bool-cases (is_stale st.control_group st.cached_at w).0) [
        | inr f ↦ rw (e, resource_stats) (rw f (sample_at-ok unit _ _ _))
        | inl f ↦
            let (st', q) =
              cache_unit_properties-registered ctx unit m
                (is_stale st.control_group st.cached_at w).1 st e in
            rw (e, resource_stats) (rw f (rw q (sample_at-ok unit _ _ _)))
      ],
    )
  ]
