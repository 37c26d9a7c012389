-- ===== src/Watch/Listing.antt =====
-- plugin/task.go and pkg/systemd/unit.go: the tasks of a Driver and the units that its Manager watches.
use nomad_driver_systemd.Prelude.{
  ℕ, ◌<◌, String, false, none, some, ◌≡◌, refl, sym, ◌∙◌, ap, inl, inr, arith, eq_iff, text-cases,
  [],
}
use nomad_driver_systemd.Prelude.Map.{lookup, lookup-insert}
use nomad_driver_systemd.Host.{Host}
use nomad_driver_systemd.Manager.{wake_channel}
use nomad_driver_systemd.Handler.{Handler}
use nomad_driver_systemd.Driver.{Driver}
use nomad_driver_systemd.Driver.Tasks.{track}
use nomad_driver_systemd.Driver.Ownership.{Owned, Started, Gone}
use nomad_driver_systemd.Driver.Channels.{Except, Quiet, only}
use nomad_driver_systemd.Watch.Registered.{Watched}

-- Each tracked task is on a Manager that was made; on the Manager in use, its unit is registered, with
-- the channel that the task's Handler waits for; and each unit that the Manager in use has registered
-- is that of a task tracked on it.
pub record Listing (d : Driver) : Type 0 where
  pub held : (id : String) (th : Handler) → lookup id d.tasks ≡ some th → th.units < d.next_manager
  pub waits :
      (id : String) (th : Handler) (k : ℕ)
      → lookup id d.tasks ≡ some th
      → d.systemd_mgr ≡ some k
      → th.units ≡ k
      → (c : ℕ) × (th.wake_ch ≡ some c) × (wake_channel (d.managers k) th.unit ≡ some c)
  pub known :
      (k : ℕ) (unit : String) (c : ℕ)
      → d.systemd_mgr ≡ some k
      → wake_channel (d.managers k) unit ≡ some c
      → (id : String) × (th : Handler) × (lookup id d.tasks ≡ some th)
        × (th.unit ≡ unit)
        × (th.units ≡ k)

-- The Managers that were made and the one in use are what they were.
pub record Steady (d e : Driver) : Type 0 where
  pub in_use : e.systemd_mgr ≡ d.systemd_mgr
  pub made : e.next_manager ≡ d.next_manager

pub Quiet-Listing :
    {d e : Driver} → e.tasks ≡ d.tasks → Steady d e → Quiet d e → Listing d → Listing e
Quiet-Listing {d} {e} same s q v = record {
  held = λ id th t. ground (arith, s.made, v.held id th (ground (arith, same)));
  waits = λ id th k t u on.
      let (c, a, b) = v.waits id th k (ground (arith, same)) (ground (arith, s.in_use)) on in
      (c, a, q.channels k th.unit refl ∙ b);
  known = λ k unit c u l.
      let (id, th, t, a, b) =
        v.known k unit c (ground (arith, s.in_use)) (sym (q.channels k unit refl) ∙ l) in
      (id, th, ground (arith, same), a, b);
}

pub Gone-Listing :
    {d e : Driver} {id : String} {gone : Handler}
    → Gone d id gone.unit e
    → lookup id d.tasks ≡ some gone
    → Steady d e
    → Except (only gone.unit) d e
    → ((k : ℕ) → d.systemd_mgr ≡ some k → wake_channel (e.managers k) gone.unit ≡ none)
    → Owned d
    → Listing d
    → Listing e
Gone-Listing {d} {e} {id} {gone} s n y x off o v = record {
  held = λ i th t. ground (arith, y.made, v.held i th (ground (arith, s.tasks i)));
  waits = λ i th k t u on.
      let t' : lookup i d.tasks ≡ some th = ground (arith, s.tasks i) in
      let (c, a, b) = v.waits i th k t' (ground (arith, y.in_use)) on in
      let apart : only gone.unit th.unit ≡ false = ground (
        arith,
        s.tasks i,
        eq_iff gone.unit th.unit,
        eq_iff id i,
        o.owns i th t',
        o.owns id gone n,
      ) in
      (c, a, x.channels k th.unit apart ∙ b);
  known = λ k u c g l.
      let g' : d.systemd_mgr ≡ some k = ground (arith, y.in_use) in
      let apart : only gone.unit u ≡ false = ground (arith, eq_iff gone.unit u, off k g') in
      let (i, th, t, a, b) = v.known k u c g' (sym (x.channels k u apart) ∙ l) in
      (i, th, ground (arith, s.tasks i, eq_iff id i, eq_iff gone.unit u), a, b);
}

-- A poll of a task writes its Handler back.
pub polled-Listing :
    {d : Driver} (id : String) (th th' : Handler)
    → lookup id d.tasks ≡ some th
    → th'.unit ≡ th.unit
    → th'.units ≡ th.units
    → th'.wake_ch ≡ th.wake_ch
    → Listing d
    → Listing (track id th' d)
polled-Listing {d} id th th' t a b c v = record {
  held = λ i x e. elim (text-cases id i) [
    | inl same ↦ ground (arith, lookup-insert id i th' d.tasks, eq_iff id i, b, v.held id th t)
    | inr differ ↦ v.held i x (ground (arith, lookup-insert id i th' d.tasks, eq_iff id i))
  ];
  waits = λ i x k e g on. elim (text-cases id i) [
    | inl same ↦
        let its : x ≡ th' = ground (arith, lookup-insert id i th' d.tasks, eq_iff id i) in
        let (w, p, q) = v.waits id th k t g (ground (arith, its, b, on)) in
        rw its (w, c ∙ p, ap (wake_channel (d.managers k)) a ∙ q)
    | inr differ ↦ v.waits i x k (ground (arith, lookup-insert id i th' d.tasks, eq_iff id i)) g on
  ];
  known = λ k u w g l.
      let (i, x, e, p, q) = v.known k u w g l in
      elim (text-cases id i) [
        | inl same ↦ (
          id,
          th',
          ground (arith, lookup-insert id id th' d.tasks, eq_iff id id),
          ground (arith, a, same, e, t, p),
          ground (arith, b, same, e, t, q),
        )
        | inr differ ↦ (i, x, ground (arith, lookup-insert id i th' d.tasks, eq_iff id i), p, q)
      ];
}

module _ ⦃h : Host⦄ where
  open h use {World}

  pub Started-Listing :
      {d e : Driver} {id unit : String} {k : ℕ}
      → Started d id unit e
      → lookup id d.tasks ≡ none
      → Steady d e
      → Except (only unit) d e
      → Watched id k e
      → d.systemd_mgr ≡ some k
      → k < d.next_manager
      → Owned d
      → Listing d
      → Listing e
  Started-Listing {d} {e} {id} {unit} {k} s n y x w g l o v =
      let start = w.begins false false [] in
      let mine : s.th ≡ w.th = ground (arith, s.tasks id, eq_iff id id, w.tracked) in
      record {
        held = λ i th t. elim (text-cases id i) [
          | inl same ↦ ground (arith, same, w.tracked, w.on, y.made)
          | inr differ ↦
              ground (arith, y.made, v.held i th (ground (arith, s.tasks i, eq_iff id i)))
        ];
        waits = λ i th j t u on. elim (text-cases id i) [
          | inl same ↦
              let its : th ≡ w.th = ground (arith, same, w.tracked) in
              let used : j ≡ k = ground (arith, y.in_use) in
              rw its (rw used (w.c, start.waits, start.channel))
          | inr differ ↦
              let t' : lookup i d.tasks ≡ some th = ground (arith, s.tasks i, eq_iff id i) in
              let (c, a, b) = v.waits i th j t' (ground (arith, y.in_use)) on in
              (
                c,
                a,
                x.channels j th.unit
                      (ground (arith, eq_iff unit th.unit, o.owns i th t', s.was_free))
                    ∙ b,
              )
        ];
        known = λ j u c g' l'. elim (text-cases unit u) [
          | inl same ↦
              let used : j ≡ k = ground (arith, y.in_use) in
              (
                id,
                w.th,
                w.tracked,
                ground (arith, mine, s.its_unit, same),
                ground (arith, w.on, used),
              )
          | inr differ ↦
              let n' : only unit u ≡ false = ground (arith, eq_iff unit u) in
              let (i, th, t, a, b) =
                v.known j u c (ground (arith, y.in_use)) (sym (x.channels j u n') ∙ l') in
              (i, th, ground (arith, s.tasks i, eq_iff id i), a, b)
        ];
      }
