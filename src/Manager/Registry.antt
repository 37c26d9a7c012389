-- ===== src/Manager/Registry.antt =====
-- The registry of units of pkg/systemd's Manager, seen as two maps: the wake channel and the journal
-- reader of each unit, and what each operation does to them.
use nomad_driver_systemd.Prelude.{
  ℕ, String, Option, none, some, ◌≡◌, refl, arith, eq_iff, ◌=?◌, if◌then◌else◌, Option-cases, inl,
  inr,
}
use nomad_driver_systemd.Prelude.Map.{lookup, lookup-insert, lookup-delete}
use nomad_driver_systemd.Manager.{
  UnitEntry, Manager, unit_locked, enter_unit, unregister_unit, store_control_group, reader_of,
  wake_channel, new_entry, set_tracker, shut,
}
use nomad_driver_systemd.Manager.Journal.{attach_reader}

-- The journal reader of a unit, if it has one.
unfoldable pub reader : Manager → String → Option ℕ
unfolding unit_locked
reader m u = reader_of (unit_locked m u)

module _ (unit : String) (m : Manager) (u : String) where
  pub wake_channel-enter_unit :
      wake_channel (enter_unit unit m) u
      ≡ (if unit =? u then some m.next_wake else wake_channel m u)
  unfolding wake_channel enter_unit
  wake_channel-enter_unit = ground (arith, lookup-insert unit u (new_entry m.next_wake) m.units)

  pub reader-enter_unit : reader (enter_unit unit m) u ≡ (if unit =? u then none else reader m u)
  unfolding reader enter_unit
  reader-enter_unit = ground (arith, lookup-insert unit u (new_entry m.next_wake) m.units)

  pub wake_channel-unregister_unit :
      wake_channel (unregister_unit unit m) u ≡ (if unit =? u then none else wake_channel m u)
  unfolding wake_channel unregister_unit
  wake_channel-unregister_unit = ground (arith, lookup-delete unit u m.units)

  pub reader-unregister_unit :
      reader (unregister_unit unit m) u ≡ (if unit =? u then none else reader m u)
  unfolding reader unregister_unit
  reader-unregister_unit = ground (arith, lookup-delete unit u m.units)

module _ (unit path : String) (t : ℕ) (m : Manager) (u : String) where
  pub wake_channel-store_control_group :
      wake_channel (store_control_group unit path t m) u ≡ wake_channel m u
  unfolding wake_channel store_control_group
  wake_channel-store_control_group = elim (Option-cases (lookup unit m.units)) [
    | inl n ↦ ground arith
    | inr (old, o) ↦ ground (
      arith,
      lookup-insert unit u (record old { control_group = path; cached_at = some t }) m.units,
      eq_iff unit u,
    )
  ]

  pub reader-store_control_group : reader (store_control_group unit path t m) u ≡ reader m u
  unfolding reader store_control_group
  reader-store_control_group = elim (Option-cases (lookup unit m.units)) [
    | inl n ↦ ground arith
    | inr (old, o) ↦ ground (
      arith,
      lookup-insert unit u (record old { control_group = path; cached_at = some t }) m.units,
      eq_iff unit u,
    )
  ]

module _ (unit : String) (m : Manager) (u : String) where
  pub wake_channel-attach_reader : wake_channel (attach_reader unit m).1 u ≡ wake_channel m u
  unfolding wake_channel attach_reader
  wake_channel-attach_reader = elim (Option-cases (lookup unit m.units)) [
    | inl n ↦ ground arith
    | inr (old, o) ↦ ground (
      arith,
      lookup-insert unit u (record old { cancel_journal = some m.next_reader }) m.units,
      eq_iff unit u,
    )
  ]

  -- The new reader is attached exactly if the unit is registered and the Manager is not stopping.
  pub reader-attach_reader : reader (attach_reader unit m).1 u ≡ (
      if (attach_reader unit m).0
      then (if unit =? u then some m.next_reader else reader m u)
      else reader m u)
  unfolding reader attach_reader
  reader-attach_reader = elim (Option-cases (lookup unit m.units)) [
    | inl n ↦ ground arith
    | inr (old, o) ↦ ground (
      arith,
      lookup-insert unit u (record old { cancel_journal = some m.next_reader }) m.units,
      eq_iff unit u,
    )
  ]

-- A CPU sample touches neither.
module _ (unit : String) (st : UnitEntry) (tracker : ℕ) (m : Manager) (u : String)
    (here : lookup unit m.units ≡ some st) where
  pub wake_channel-set_tracker : wake_channel (set_tracker unit st tracker m) u ≡ wake_channel m u
  unfolding wake_channel set_tracker
  wake_channel-set_tracker =
      ground (arith, lookup-insert unit u (record st { cpu = some tracker }) m.units, eq_iff unit u)

  pub reader-set_tracker : reader (set_tracker unit st tracker m) u ≡ reader m u
  unfolding reader set_tracker
  reader-set_tracker =
      ground (arith, lookup-insert unit u (record st { cpu = some tracker }) m.units, eq_iff unit u)

module _ (m : Manager) (u : String) where
  pub wake_channel-shut : wake_channel (shut m) u ≡ none
  unfolding wake_channel shut lookup
  wake_channel-shut = refl

  pub reader-shut : reader (shut m) u ≡ none
  unfolding reader shut lookup
  reader-shut = refl
