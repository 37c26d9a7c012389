-- ===== src/Driver/Channels.antt =====
-- plugin/task.go: which units' wake channels the parts of an RPC change.
pub mod Rpcs
pub mod Teardown
use nomad_driver_systemd.Prelude.{
  ℕ, String, Bool, true, false, ◌≡◌, refl, ◌∙◌, ap, inl, inr, arith, sym, Bool-cases, ◌==◌, ◌=?◌,
}
use nomad_driver_systemd.Errors.{Result-cases}
use nomad_driver_systemd.Units.{TaskState, to_task_state, is_running}
use nomad_driver_systemd.Host.{Host}
use nomad_driver_systemd.Manager.{Manager, wake_channel, wake_unit, enter_unit, register_unit}
use nomad_driver_systemd.Manager.Journal.{stream_logs}
use nomad_driver_systemd.Manager.Jobs.{unit_state, start_unit, stop_unit, kill_unit}
use nomad_driver_systemd.Manager.Registry.{
  wake_channel-enter_unit, wake_channel-store_control_group, wake_channel-attach_reader,
}
use nomad_driver_systemd.Manager.Sections.{cache_unit_properties_cases, stream_logs_cases}
use nomad_driver_systemd.Handler.{Handler}
use nomad_driver_systemd.Driver.{Driver, put, store_manager, claim_unit, release_unit}
use nomad_driver_systemd.Driver.Tasks.{roll_back_failed_start, bring_up, adopt, launch, track}

-- From d to e, no Manager has changed the wake channels of units, but of those that f names.
pub record Except (f : String → Bool) (d e : Driver) : Type 0 where
  pub channels :
      (k : ℕ) (u : String)
      → f u ≡ false
      → wake_channel (e.managers k) u ≡ wake_channel (d.managers k) u

abbrev pub nothing : String → Bool
nothing u = false

abbrev pub Quiet : Driver → Driver → Type 0
Quiet d e = Except nothing d e

abbrev pub only : String → String → Bool
only unit u = unit =? u

pub Except-trans : (f : String → Bool) {d e g : Driver} → Except f d e → Except f e g → Except f d g
Except-trans f p q = record { channels = λ k u n. q.channels k u n ∙ p.channels k u n }

pub Quiet-Except : (f : String → Bool) {d e : Driver} → Quiet d e → Except f d e
Quiet-Except f q = record { channels = λ k u n. q.channels k u refl }

pub Except-same : (f : String → Bool) (d e : Driver) → e.managers ≡ d.managers → Except f d e
Except-same f d e m = record { channels = λ k u n. ap (λ ms. wake_channel (ms k) u) m }

pub Quiet-refl : (d : Driver) → Quiet d d
Quiet-refl d = record { channels = λ k u n. refl }

pub store_manager-Except :
    (f : String → Bool) (k : ℕ) (m : Manager) (d : Driver)
    → ((u : String) → f u ≡ false → wake_channel m u ≡ wake_channel (d.managers k) u)
    → Except f d (store_manager k m d)
store_manager-Except f k m d same = record {
  channels = λ j u n. elim (Bool-cases (j == k)) [
    | inl e ↦
        let s : j ≡ k = ground arith in
        rw e (same u n ∙ ap (λ i. wake_channel (d.managers i) u) (sym s))
    | inr e ↦ rw e refl
  ];
}

pub wake_unit-channel :
    (unit : String) (m : Manager) (u : String)
    → wake_channel (wake_unit unit m) u ≡ wake_channel m u
unfolding wake_unit wake_channel
wake_unit-channel unit m u = refl

pub claim_unit-Except :
    (f : String → Bool) (unit id : String) (d : Driver) → Except f d (claim_unit unit id d).1
unfolding claim_unit
claim_unit-Except f unit id d = Except-same f d (claim_unit unit id d).1 (ground arith)

pub release_unit-Except :
    (f : String → Bool) (unit : String) (d : Driver) → Except f d (release_unit unit d)
unfolding release_unit
release_unit-Except f unit d = Except-same f d (release_unit unit d) refl

module _ ⦃h : Host⦄ where
  open h use {World}

  stream_logs-channel :
      (m : Manager) (v : String) (w : World) (u : String)
      → wake_channel (stream_logs m v w).1 u ≡ wake_channel m u
  stream_logs-channel m v w u = elim (stream_logs_cases m v w) [
    | inl same ↦ rw same refl
    | inr attached ↦ rw attached (wake_channel-attach_reader v m u)
  ]

  register_unit-channel :
      (ctx : Bool) (unit : String) (m : Manager) (w : World) (u : String)
      → only unit u ≡ false
      → wake_channel (register_unit ctx unit m w).0 u ≡ wake_channel m u
  unfolding register_unit
  register_unit-channel ctx unit m w u n =
      let entered : wake_channel (enter_unit unit m) u ≡ wake_channel m u =
        ground (arith, wake_channel-enter_unit unit m u) in
      elim (cache_unit_properties_cases ctx unit (enter_unit unit m) w) [
        | inl same ↦ rw same entered
        | inr (path, t, stored) ↦
            rw stored (wake_channel-store_control_group unit path t (enter_unit unit m) u ∙ entered)
      ]

  pub bring_up-Quiet :
      (k : ℕ) (unit : String) (d : Driver) (w : World) → Quiet d (bring_up k unit d w).1
  unfolding bring_up roll_back_failed_start stop_unit
  bring_up-Quiet k unit d w = elim (Result-cases (unit_state (d.managers k) d.ended unit w).0) [
    | inr (e, q) ↦ rw (q, bring_up) (Quiet-refl d)
    | inl (s, q) ↦ elim (Bool-cases (is_running (to_task_state s))) [
      | inl r ↦ rw (q, bring_up) (rw r (Quiet-refl d))
      | inr r ↦
          let w' = (unit_state (d.managers k) d.ended unit w).1 in
          elim (Result-cases (start_unit (d.managers k) d.ended unit w').0) [
            | inl (u, p) ↦ rw (q, bring_up) (rw r (rw p (Quiet-refl d)))
            | inr (e, p) ↦
                rw (q, bring_up)
                  (rw r (
                    rw p (
                      store_manager-Except nothing k (wake_unit unit (d.managers k)) d
                        (λ u n. wake_unit-channel unit (d.managers k) u))))
          ]
    ]
  ]

  pub adopt-Except :
      (k : ℕ) (id unit : String) (state : TaskState) (d : Driver) (w : World)
      → Except (only unit) d (adopt k id unit state d w).1
  unfolding adopt
  adopt-Except k id unit state d w =
      store_manager-Except (only unit) k _ d (register_unit-channel d.ended unit (d.managers k) w)

  pub launch-Quiet :
      (id : String) (th : Handler) (d : Driver) (w : World) → Quiet d (launch id th d w).0
  unfolding launch
  launch-Quiet id th d w =
      let (_, m, _) = stream_logs (d.managers th.units) th.unit w in
      let stored = store_manager th.units m d in
      Except-trans nothing
        (store_manager-Except nothing th.units m d
          (λ u n. stream_logs-channel (d.managers th.units) th.unit w u))
        (Except-same nothing stored (track id (record th { watching = true }) stored) refl)
