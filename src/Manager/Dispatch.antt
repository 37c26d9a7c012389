-- ===== src/Manager/Dispatch.antt =====
-- pkg/systemd/unit.go: propertiesDispatchLoop, and which wakes it leaves behind.
use nomad_driver_systemd.Prelude.{
  ℕ, String, Bool, false, ◌||◌, List, [], ◌∷◌, some, ◌≡◌, refl, arith, eq_iff, ◌=?◌,
}
use nomad_driver_systemd.Manager.{Manager, wake_unit, wake_channel}
use nomad_driver_systemd.Manager.Steps.{Wakes, wakes, Step-Wakes}

-- What the loop receives: a change of a unit's properties, or an error of the subscription, which is
-- only logged.
pub data Notification : Type 0 where
  updated : String → Notification
  subscription_failed : Notification

-- The loop, until its context is cancelled: that is where the notifications end.
unfoldable pub dispatch : List Notification → Manager → Manager
dispatch [] m = m
dispatch (updated unit ∷ rest) m = dispatch rest (wake_unit unit m)
dispatch (subscription_failed ∷ rest) m = dispatch rest m

abbrev pub mentions : String → List Notification → Bool
mentions unit [] = false
mentions unit (updated v ∷ rest) = v =? unit || mentions unit rest
mentions unit (subscription_failed ∷ rest) = mentions unit rest

pub wake_unit-pending :
    (v unit : String) (c : ℕ) (m : Manager)
    → Wakes m
    → wake_channel m unit ≡ some c
    → (wake_unit v m).pending c ≡ (v =? unit || m.pending c)
unfolding wake_unit wake_channel
wake_unit-pending v unit c m d e = ground (arith, d.distinct v unit c, eq_iff v unit)

-- No wake is lost and none is made up: where no two units share a channel, after any notifications
-- the channel of a registered unit has a wake exactly if it had one before or one of them was about
-- the unit, and the unit keeps its channel.
dispatch-pending :
    (ns : List Notification) (unit : String) (c : ℕ) (m : Manager)
    → Wakes m
    → wake_channel m unit ≡ some c
    → ((dispatch ns m).pending c ≡ (mentions unit ns || m.pending c))
      × (wake_channel (dispatch ns m) unit ≡ some c)
unfolding dispatch
dispatch-pending [] unit c m d e = (refl, e)
dispatch-pending (subscription_failed ∷ ns) unit c m d e = dispatch-pending ns unit c m d e
dispatch-pending (updated v ∷ ns) unit c m d e =
    let (p, k) =
      dispatch-pending ns unit c (wake_unit v m) (Step-Wakes (wakes v) d)
        (unfold wake_unit wake_channel in e) in
    (ground (arith, p, wake_unit-pending v unit c m d e), k)
