-- ===== src/Watch/Registered.antt =====
-- RegisterUnit, StreamLogs and Handler.Start: the registered unit of a task that is launched.
use nomad_driver_systemd.Prelude.{
  ℕ, String, Bool, true, some, ◌≡◌, refl, ap, ◌∙◌, inl, inr, arith, eq_iff, List,
}
use nomad_driver_systemd.Prelude.Map.{lookup, lookup-insert_self}
use nomad_driver_systemd.Host.{Host}
use nomad_driver_systemd.Manager.{
  Manager, wake_channel, enter_unit, register_unit, cache_unit_properties,
}
use nomad_driver_systemd.Manager.Journal.{stream_logs}
use nomad_driver_systemd.Manager.Registry.{
  wake_channel-enter_unit, wake_channel-store_control_group, wake_channel-attach_reader,
}
use nomad_driver_systemd.Manager.Sections.{cache_unit_properties_cases, stream_logs_cases}
use nomad_driver_systemd.Manager.Steps as Managers
use nomad_driver_systemd.Handler.{Handler}
use nomad_driver_systemd.Handler.Exit.{Sound}
use nomad_driver_systemd.Driver.{Driver, put}
use nomad_driver_systemd.Driver.Tasks.{launch}
use nomad_driver_systemd.Watch.{looking}
use nomad_driver_systemd.Watch.Awake.{Begins}

module _ ⦃h : Host⦄ where
  open h use {World}

  -- The unit has channel c, and no two units share one.
  abbrev pub Listed : ℕ → String → Manager → Type 0
  Listed c unit m = Managers.Wakes m × (wake_channel m unit ≡ some c)

  cache_unit_properties-Listed :
      (c : ℕ) (unit : String) (ctx : Bool) (v : String) (m : Manager) (w : World)
      → Listed c unit m
      → Listed c unit (cache_unit_properties ctx v m w).0
  cache_unit_properties-Listed c unit ctx v m w l = elim (cache_unit_properties_cases ctx v m w) [
    | inl same ↦ rw same l
    | inr (path, t, stored) ↦ rw stored (
      Managers.Step-Wakes (Managers.caches v path t) l.0,
      wake_channel-store_control_group v path t m unit ∙ l.1,
    )
  ]

  stream_logs-Listed :
      (c : ℕ) (unit v : String) (m : Manager) (w : World)
      → Listed c unit m
      → Listed c unit (stream_logs m v w).1
  stream_logs-Listed c unit v m w l = elim (stream_logs_cases m v w) [
    | inl same ↦ rw same l
    | inr attached ↦
        rw attached
          (Managers.Step-Wakes (Managers.attaches v) l.0, wake_channel-attach_reader v m unit ∙ l.1)
  ]

  -- RegisterUnit gives the unit a channel of its own.
  pub register_unit-Listed :
      (ctx : Bool) (unit : String) (m : Manager) (w : World)
      → Managers.Wakes m
      → Listed m.next_wake unit (register_unit ctx unit m w).0
  unfolding register_unit
  register_unit-Listed ctx unit m w v =
      cache_unit_properties-Listed m.next_wake unit ctx unit (enter_unit unit m) w (
        Managers.Step-Wakes (Managers.enters unit) v,
        ground (arith, wake_channel-enter_unit unit m unit, eq_iff unit unit),
      )

  -- The Driver e tracks the task with a Handler on Manager k, whose goroutines run and from which it is
  -- watched.
  pub record Watched (id : String) (k : ℕ) (e : Driver) : Type 0 where
    pub th : Handler
    pub c : ℕ
    pub tracked : lookup id e.tasks ≡ some th
    pub on : th.units ≡ k
    pub watching : th.watching ≡ true
    pub begins :
        (terminal unsure : Bool) (queued : List String)
        → Begins c (record {
          manager = e.managers k;
          handler = th;
          terminal = terminal;
          queued = queued;
          phase = looking;
          unsure = unsure;
        })

  -- Handler.Start keeps the registry, and the Store has the Handler with its goroutines running.
  pub launch-Watched :
      (id : String) (th : Handler) (c : ℕ) (d : Driver) (w : World)
      → th.wake_ch ≡ some c
      → Listed c th.unit (d.managers th.units)
      → Sound (record th { watching = true })
      → Watched id th.units (launch id th d w).0
  unfolding launch
  launch-Watched id th c d w e l v =
      let (_, m, _) = stream_logs (d.managers th.units) th.unit w in
      let kept = stream_logs-Listed c th.unit th.unit (d.managers th.units) w l in
      let here : put d.managers th.units m th.units ≡ m = ground arith in
      record {
        th = record th { watching = true };
        c = c;
        tracked = lookup-insert_self id (record th { watching = true }) d.tasks;
        on = refl;
        watching = refl;
        begins = λ terminal unsure queued. record {
          phase = refl;
          channel = ap (λ n. wake_channel n th.unit) here ∙ kept.1;
          waits = e;
          wakes = rw here kept.0;
          sound = v;
        };
      }
