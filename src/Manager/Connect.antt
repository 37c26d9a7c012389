-- ===== src/Manager/Connect.antt =====
-- pkg/systemd/systemd.go: NewManager, the subscription to property changes, and reconnecting.
use nomad_driver_systemd.Prelude.{
  ℕ, ◌*◌, min, String, Bool, true, false, List, [], ◌∷◌, if◌then◌else◌,
}
use nomad_driver_systemd.Prelude.Map.{Map}
use nomad_driver_systemd.Errors.{Result, ok, err, wrap}
use nomad_driver_systemd.Host.{Host}
use nomad_driver_systemd.Manager.{
  UnitEntry, Manager, new_manager, second, healthy, set_conn, cache_unit_properties,
}

abbrev pub reconnect_interval : ℕ
reconnect_interval = 10 * second

abbrev pub reconnect_backoff_max : ℕ
reconnect_backoff_max = 300 * second

-- The keys of the registry, in the order of the entries.
abbrev pub unit_names : Map UnitEntry → List String
unit_names [] = []
unit_names ((unit, _) ∷ rest) = unit ∷ unit_names rest

module _ ⦃h : Host⦄ where
  open h use {World}

  -- A connection whose subscription is refused gets no subscriber.
  unfoldable pub subscribe_to_property_changes : ℕ → World → World
  subscribe_to_property_changes c w =
      let (r, w') = h.subscribe c w in
      elim r [ ok _ ↦ h.set_properties_subscriber c w' | err e ↦ w' ]

  unfoldable pub make_manager : World → Result Manager × World
  unfolding subscribe_to_property_changes
  make_manager w =
      let (r, w') = h.new_connection w in
      elim r [
        | err e ↦ (err (wrap "connect to systemd" e), w')
        | ok c ↦ (ok (new_manager c), subscribe_to_property_changes c w')
      ]

  unfoldable pub cache_all : Bool → List String → Manager → World → Manager × World
  cache_all ctx [] m w = (m, w)
  cache_all ctx (unit ∷ rest) m w =
      let (m', w') = cache_unit_properties ctx unit m w in cache_all ctx rest m' w'

  unfoldable pub try_reconnect : Manager → World → Bool × Manager × World
  unfolding subscribe_to_property_changes cache_all
  try_reconnect m w =
      let (r, w') = h.new_connection w in
      elim r [
        | err e ↦ (false, m, w')
        | ok c ↦
            let (m', w'') = set_conn c m (subscribe_to_property_changes c w') in
            let (m'', w3) = cache_all m'.shut_down (unit_names m'.units) m' w'' in (true, m'', w3)
      ]

  -- One round of reconnectLoop after its timer: the delay until the next, and the state after it.
  unfoldable pub reconnect_round : ℕ → Manager → World → ℕ × Manager × World
  unfolding try_reconnect
  reconnect_round backoff m w =
      if healthy m w
      then (reconnect_interval, m, w)
      else (let (done, m', w') = try_reconnect m w in
          (if done then reconnect_interval else min (backoff * 2) reconnect_backoff_max, m', w'))

  -- What the select of reconnectLoop receives: the end of the Manager's context, or the timer, with
  -- the Manager and the world that the round then finds.
  pub data ReconnectEvent : Type 0 where
    context_done : ReconnectEvent
    timer_fired : Manager → World → ReconnectEvent

  -- reconnectLoop: what each round resets the timer to.
  unfoldable pub reconnect_loop : ℕ → List ReconnectEvent → List ℕ
  unfolding reconnect_round
  reconnect_loop backoff [] = []
  reconnect_loop backoff (context_done ∷ events) = []
  reconnect_loop backoff (timer_fired m w ∷ events) =
      let delay = (reconnect_round backoff m w).0 in delay ∷ reconnect_loop delay events
