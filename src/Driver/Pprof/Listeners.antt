-- ===== src/Driver/Pprof/Listeners.antt =====
-- What holds of the pprof servers in every state.
use nomad_driver_systemd.Prelude.{
  ℕ, ◌<◌, ◌=?◌, String, true, false, none, some, ◌≡◌, arith, inl, inr, Option-cases, Bool-cases,
  if◌then◌else◌,
}
use nomad_driver_systemd.Host.{Host}
use nomad_driver_systemd.Driver.Pprof.{
  Server, Servers, no_servers, stop, bind_pprof, stop_current, configure, Step, configures,
  shuts_down, ends, watches, Reach, here, next,
}

-- A server that listens is the Driver's; a listener was closed exactly once if its server was stopped, and
-- otherwise not yet; and until the Driver's context ends its server listens.
pub record Tidy (s : Servers) : Type 0 where
  pub known : (k : ℕ) → s.current ≡ some k → k < s.next_server
  pub listening : (k : ℕ) → k < s.next_server → (s.made k).stopped ≡ false → s.current ≡ some k
  pub closed_once :
      (k : ℕ) → k < s.next_server → (s.made k).closes ≡ (if (s.made k).stopped then 1 else 0)
  pub serves : (k : ℕ) → s.ended ≡ false → s.current ≡ some k → (s.made k).stopped ≡ false

module _ ⦃h : Host⦄ where
  open h use {World}

  stop_current-Tidy : (s : Servers) (w : World) → Tidy s → Tidy (stop_current s w).0
  unfolding stop_current
  stop_current-Tidy s w v = elim (Option-cases s.current) [
    | inl n ↦ rw (n, stop_current) v
    | inr (c, e) ↦ record {
      known = λ k q. ground arith;
      listening = λ k l q. ground (arith, v.listening k);
      closed_once = λ k l. ground (arith, v.closed_once k);
      serves = λ k n q. ground arith;
    }
  ]

  bind_pprof-Tidy :
      (addr : String) (s : Servers) (w : World)
      → s.current ≡ none
      → Tidy s
      → Tidy (bind_pprof addr s w).1
  unfolding bind_pprof
  bind_pprof-Tidy addr s w n v = record {
    known = λ k q. ground arith;
    listening = λ k l q. ground (arith, v.listening k);
    closed_once = λ k l. ground (arith, v.closed_once k);
    serves = λ k e q. ground arith;
  }

  pub stop_current-none : (s : Servers) (w : World) → (stop_current s w).0.current ≡ none
  unfolding stop_current
  stop_current-none s w = ground arith

  configure-Tidy : (addr : String) (s : Servers) (w : World) → Tidy s → Tidy (configure addr s w).1
  unfolding configure
  configure-Tidy addr s w v = elim (Option-cases s.current) [
    | inl n ↦ rw (n, configure) (bind_pprof-Tidy addr s w n v)
    | inr (c, e) ↦ elim (Bool-cases ((s.made c).addr =? addr)) [
      | inl q ↦ rw (e, configure) (rw q v)
      | inr q ↦
          let (s', w') = stop_current s w in
          rw (e, configure)
            (rw q (bind_pprof-Tidy addr s' w' (stop_current-none s w) (stop_current-Tidy s w v)))
    ]
  ]

  watches-Tidy : (k : ℕ) (s : Servers) (w : World) → s.ended ≡ true → Tidy s → Tidy (stop k s w).0
  unfolding stop
  watches-Tidy k s w x v = elim (Bool-cases (s.made k).stopped) [
    | inl e ↦ rw (e, stop) v
    | inr e ↦
        rw (e, stop)
          (record {
            known = v.known;
            listening = λ j l q. ground (arith, v.listening j);
            closed_once = λ j l. ground (arith, v.closed_once j);
            serves = λ j n q. ground arith;
          })
  ]

  Step-Tidy : {s t : Servers} → Step s t → Tidy s → Tidy t
  Step-Tidy {s} (configures addr w) v = configure-Tidy addr s w v
  Step-Tidy {s} (shuts_down w) v = stop_current-Tidy s w v
  Step-Tidy ends v = record {
    known = v.known;
    listening = v.listening;
    closed_once = v.closed_once;
    serves = λ k n q. cc;
  }
  Step-Tidy {s} (watches k w l e) v = watches-Tidy k s w e v

  no_servers-Tidy : (f : ℕ → Server) → Tidy (no_servers f)
  unfolding no_servers
  no_servers-Tidy f = record {
    known = λ k q. cc;
    listening = λ k l q. absurd (omega arith);
    closed_once = λ k l. absurd (omega arith);
    serves = λ k n q. cc;
  }

  -- In every state that the servers reach, by any sequence of configurations, shutdowns and the
  -- goroutines that wait for the Driver's context: a server that listens is the one that the Driver
  -- has, so there is at most one; the listener of each server was closed exactly once if the server
  -- was stopped, and never otherwise; and until the Driver's context ends its server listens.
  pub Reach-Tidy : (f : ℕ → Server) {s : Servers} → Reach (no_servers f) s → Tidy s
  Reach-Tidy f here = no_servers-Tidy f
  Reach-Tidy f (next r st) = Step-Tidy st (Reach-Tidy f r)
