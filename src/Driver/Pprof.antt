-- ===== src/Driver/Pprof.antt =====
-- plugin/pprof.go: the servers that startPprof makes, each with its listener and its sync.Once, and who
-- stops them: configurePprof, Shutdown, and the goroutine that waits for the Driver's context.
pub mod Listeners
pub mod Refine
use nomad_driver_systemd.Prelude.{
  ℕ, suc, ◌<◌, ◌==◌, String, Bool, true, false, Option, none, some, ◌≡◌, ◌=?◌, if◌then◌else◌,
}
use nomad_driver_systemd.Errors.{Result, ok, err, wrap}
use nomad_driver_systemd.Host.{Host}

-- `stopped` tells that stopOnce is spent; `closes` counts the executions of its body, which shuts the
-- server down and closes the listener.
pub record Server : Type 0 where
  pub addr : String
  pub stopped : Bool
  pub closes : ℕ

-- The servers that were made, by number, the next free number, the Driver's field pprof, and whether
-- the Driver's context has ended.
pub record Servers : Type 0 where
  pub made : ℕ → Server
  pub next_server : ℕ
  pub current : Option ℕ
  pub ended : Bool

abbrev pub put_server : (ℕ → Server) → ℕ → Server → ℕ → Server
put_server f k v j = if j == k then v else f j

unfoldable pub no_servers : (ℕ → Server) → Servers
no_servers f = record { made = f; next_server = 0; current = none; ended = false }

module _ ⦃h : Host⦄ where
  open h use {World}

  -- The method stop. A request that outlasts its grace period keeps no listener open.
  unfoldable pub stop : ℕ → Servers → World → Servers × World
  stop k s w =
      let p = s.made k in
      if p.stopped then (s, w) else (
        record s {
          made = put_server s.made k (record p { stopped = true; closes = suc p.closes });
        },
        h.unlisten p.addr w,
      )

  unfoldable pub start_pprof : String → Servers → World → Result ℕ × Servers × World
  start_pprof addr s w =
      let (r, w') = h.listen addr w in
      elim r [
        | err e ↦ (err (wrap "listen on" e), s, w')
        | ok _ ↦
            let k = s.next_server in
            let p : Server = record { addr = addr; stopped = false; closes = 0 } in
            (ok k, record s { made = put_server s.made k p; next_server = suc k }, w')
      ]

  -- configurePprof once no server is current.
  unfoldable pub bind_pprof : String → Servers → World → Result (Unit {0}) × Servers × World
  unfolding start_pprof
  bind_pprof addr s w =
      if addr =? ""
      then (ok tt, s, w)
      else (let (r, s', w') = start_pprof addr s w in
          elim r [ err e ↦ (err e, s', w') | ok k ↦ (ok tt, record s' { current = some k }, w') ])

  unfoldable pub stop_current : Servers → World → Servers × World
  unfolding stop
  stop_current s w = elim s.current [
    | none ↦ (s, w)
    | some k ↦ let (s', w') = stop k s w in (record s' { current = none }, w')
  ]

  unfoldable pub configure : String → Servers → World → Result (Unit {0}) × Servers × World
  unfolding bind_pprof stop_current
  configure addr s w = elim s.current [
    | none ↦ bind_pprof addr s w
    | some k ↦
        if (s.made k).addr =? addr
        then (ok tt, s, w)
        else (let (s', w') = stop_current s w in bind_pprof addr s' w')
  ]

  -- What happens to the servers: configurePprof and the part of Shutdown that stops the server, each
  -- under pprofLock, the end of the Driver's context, and what each server's goroutine does then.
  pub data Step (s : Servers) : Servers → Type 0 where
    configures : (addr : String) (w : World) → Step s (configure addr s w).1
    shuts_down : (w : World) → Step s (stop_current s w).0
    ends : Step s (record s { ended = true })
    watches : (k : ℕ) (w : World) → k < s.next_server → s.ended ≡ true → Step s (stop k s w).0

  pub data Reach (s : Servers) : Servers → Type 0 where
    here : Reach s s
    next : {t u : Servers} → Reach s t → Step t u → Reach s u
