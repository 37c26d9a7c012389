-- ===== src/Driver/Pprof/Refine.antt =====
-- plugin/pprof.go: the Driver's address of its pprof server stands for the servers themselves.
use nomad_driver_systemd.Prelude.{
  ℕ, String, false, Option, true, none, some, ◌≡◌, ◌≢◌, ◌⊎◌, eq_iff, sym, ap, ◌∙◌, if◌then◌else◌,
  refl, arith, inl, inr, ◌=?◌, Option-cases, Bool-cases,
}
use nomad_driver_systemd.Errors.{Result, ok}
use nomad_driver_systemd.Host.{Host}
use nomad_driver_systemd.Driver.{Driver}
use nomad_driver_systemd.Driver.Setup as Setup
use nomad_driver_systemd.Driver.Pprof as Pprof
use nomad_driver_systemd.Driver.Pprof.{
  Server, Servers, no_servers, bind_pprof, stop_current, configure, Reach,
}
use nomad_driver_systemd.Driver.Pprof.Listeners.{Tidy, Reach-Tidy, stop_current-none}

abbrev pub address : Servers → Option String
address s = elim s.current [ none ↦ none | some k ↦ some (s.made k).addr ]

module _ ⦃h : Host⦄ where
  open h use {World}

  -- What the Driver's model makes of a configuration, and what the servers do.
  abbrev pub Agrees : String → Servers → Driver → World → Type 0
  Agrees addr s d w =
      let (r, s', w') = configure addr s w in
      let (q, d', v) = Setup.configure_pprof addr d w in
      (r ≡ q) × (d'.pprof ≡ address s') × (w' ≡ v)

  bind_pprof-start_pprof :
      (addr : String) (s : Servers) (d : Driver) (w : World)
      → s.current ≡ none
      → d.pprof ≡ none
      → let (r, s', w') = bind_pprof addr s w in
        let (q, d', v) = Setup.start_pprof addr d w in (r ≡ q) × (d'.pprof ≡ address s') × (w' ≡ v)
  unfolding bind_pprof Setup.start_pprof
  bind_pprof-start_pprof addr s d w n e = (ground arith, ground arith, ground arith)

  stop_current-stop_pprof :
      (s : Servers) (d : Driver) (w : World)
      → Tidy s
      → s.ended ≡ false
      → d.pprof ≡ address s
      → ((Setup.stop_pprof d w).0.pprof ≡ none) × ((stop_current s w).1 ≡ (Setup.stop_pprof d w).1)
  unfolding stop_current Setup.stop_pprof
  stop_current-stop_pprof s d w v n e = elim (Option-cases s.current) [
    | inl x ↦ (refl, ground arith)
    | inr (k, x) ↦ (refl, ground (arith, v.serves k))
  ]

  configure-Agrees :
      (addr : String) (s : Servers) (d : Driver) (w : World)
      → Tidy s
      → s.ended ≡ false
      → d.pprof ≡ address s
      → Agrees addr s d w
  unfolding configure Setup.configure_pprof
  configure-Agrees addr s d w v n e = elim (Option-cases s.current) [
    | inl x ↦
        let p : d.pprof ≡ none = ground arith in
        rw (x, configure) (rw (p, Setup.configure_pprof) (bind_pprof-start_pprof addr s d w x p))
    | inr (k, x) ↦
        let p : d.pprof ≡ some (s.made k).addr = ground arith in
        elim (Bool-cases ((s.made k).addr =? addr)) [
          | inl q ↦
              rw (x, configure) (rw (p, Setup.configure_pprof) (rw q (refl, ground arith, refl)))
          | inr q ↦
              let (gone, same) = stop_current-stop_pprof s d w v n e in
              let (s', w') = stop_current s w in
              let (d', v') = Setup.stop_pprof d w in
              rw (x, configure)
                (rw (p, Setup.configure_pprof)
                  (rw q (
                    rw (← same)
                      (bind_pprof-start_pprof addr s' d' w' (stop_current-none s w) gone))))
        ]
  ]

  -- What configurePprof does to the servers: nothing, with success, if the current one is on the address
  -- that is asked for; otherwise a current one is stopped before the address is bound.
  abbrev pub Reconfigures : String → Servers → World → Type 0
  Reconfigures addr s w =
      ((address s ≡ some addr) × (configure addr s w ≡ (ok tt, s, w)))
      ⊎ ((address s ≢ some addr)
          × (let (s', w') = stop_current s w in
              (s'.current ≡ none) × (configure addr s w ≡ bind_pprof addr s' w')))

  choose : String → Servers → World → Option ℕ → Result (Unit {0}) × Servers × World
  choose addr s w o = elim o [
    | none ↦ bind_pprof addr s w
    | some j ↦
        if (s.made j).addr =? addr
        then (ok tt, s, w)
        else bind_pprof addr (stop_current s w).0 (stop_current s w).1
  ]

  stop_current-idle : (s : Servers) (w : World) → s.current ≡ none → stop_current s w ≡ (s, w)
  unfolding stop_current
  stop_current-idle s w x = ap stopped x
    where
      stopped : Option ℕ → Servers × World
      stopped o = elim o [
        | none ↦ (s, w)
        | some k ↦ let (s', w') = Pprof.stop k s w in (record s' { current = none }, w')
      ]

  configure-none :
      (addr : String) (s : Servers) (w : World)
      → s.current ≡ none
      → configure addr s w ≡ bind_pprof addr (stop_current s w).0 (stop_current s w).1
  unfolding configure choose
  configure-none addr s w x =
      ap (choose addr s w) x ∙ ap (λ p. bind_pprof addr p.0 p.1) (sym (stop_current-idle s w x))

  configure-same :
      (addr : String) (s : Servers) (w : World) (k : ℕ)
      → s.current ≡ some k
      → ((s.made k).addr =? addr) ≡ true
      → configure addr s w ≡ (ok tt, s, w)
  unfolding configure choose
  configure-same addr s w k x q = ap (choose addr s w) x ∙ rw q refl

  configure-other :
      (addr : String) (s : Servers) (w : World) (k : ℕ)
      → s.current ≡ some k
      → ((s.made k).addr =? addr) ≡ false
      → configure addr s w ≡ bind_pprof addr (stop_current s w).0 (stop_current s w).1
  unfolding configure choose
  configure-other addr s w k x q = ap (choose addr s w) x ∙ rw q refl

  configure-Reconfigures : (addr : String) (s : Servers) (w : World) → Reconfigures addr s w
  unfolding configure stop_current
  configure-Reconfigures addr s w = elim (Option-cases s.current) [
    | inl x ↦ inr (λ e. cc, (stop_current-none s w, configure-none addr s w x))
    | inr (k, x) ↦ elim (Bool-cases ((s.made k).addr =? addr)) [
      | inl q ↦ inl (ground (arith, eq_iff (s.made k).addr addr), configure-same addr s w k x q)
      | inr q ↦ inr (
        λ e. ground (arith, eq_iff (s.made k).addr addr),
        (stop_current-none s w, configure-other addr s w k x q),
      )
    ]
  ]

  -- In every state of the servers before the Driver's context ends, a Driver whose pprof field is the
  -- address of the current server: configurePprof returns the same, leaves the address of the then
  -- current server, and the same listeners on the host, as it does on the servers; so does the stop
  -- of the server in Shutdown, after which there is none. And configurePprof on the address of the
  -- current server does nothing, with success; on any other, it stops the current server, if there
  -- is one, before it binds the address.
  pub Reach-Agrees :
      (f : ℕ → Server) {s : Servers}
      → Reach (no_servers f) s
      → s.ended ≡ false
      → (d : Driver) → d.pprof ≡ address s
      → (addr : String) (w : World)
      → Agrees addr s d w
        × Reconfigures addr s w
        × ((Setup.stop_pprof d w).0.pprof ≡ address (stop_current s w).0)
        × ((stop_current s w).1 ≡ (Setup.stop_pprof d w).1)
  Reach-Agrees f {s} r n d e addr w =
      let tidy = Reach-Tidy f r in
      let (gone, same) = stop_current-stop_pprof s d w tidy n e in
      (
        configure-Agrees addr s d w tidy n e,
        configure-Reconfigures addr s w,
        ground (arith, gone, stop_current-none s w),
        same,
      )
