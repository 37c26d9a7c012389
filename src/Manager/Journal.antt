-- ===== src/Manager/Journal.antt =====
-- pkg/systemd/journal.go: StreamLogs up to the start of its reader goroutine.
use nomad_driver_systemd.Prelude.{ℕ, suc, ◌/◌, String, Bool, if◌then◌else◌, some}
use nomad_driver_systemd.Errors.{Result, ok, err, message, wrap, unit_not_registered}
use nomad_driver_systemd.Host.{Host}
use nomad_driver_systemd.Manager.{Manager, registered, start_journal_reader, cancel, cancel_reader}

-- context.WithCancel(sm.ctx), startJournalReader, and the cancellation if that refuses.
unfoldable pub attach_reader : String → Manager → Bool × Manager
unfolding start_journal_reader cancel
attach_reader unit m =
    let r = m.next_reader in
    let (started, m') = start_journal_reader unit r (record m { next_reader = suc r }) in
    (started, if started then m' else cancel_reader (some r) m')

module _ ⦃h : Host⦄ where
  open h use {World}

  -- Start from now; where that fails from the tail; where that fails from wherever the cursor is.
  seek : ℕ → World → World
  seek j w =
      let (t, w') = h.now w in
      let (r, w'') = h.seek_realtime j (t / 1000) w' in
      elim r [ ok _ ↦ w'' | err e ↦ (h.seek_tail j w'').1 ]

  -- With the journal open and matched.
  start_streaming : String → ℕ → Manager → World → Result (Unit {0}) × Manager × World
  start_streaming unit j m w =
      let (started, m') = attach_reader unit m in
      let w' = seek j w in
      if started
      then (ok tt, m', w')
      else (err (message "unit was unregistered or the manager stopped"), m', h.close_journal j w')

  unfoldable pub stream_logs : Manager → String → World → Result (Unit {0}) × Manager × World
  unfolding start_streaming seek
  stream_logs m unit w =
      if registered m unit
      then (let (j, w') = h.open_journal w in
          elim j [
            | err e ↦ (err (wrap "open journal" e), m, w')
            | ok j ↦
                let (r, w'') = h.add_match j unit w' in
                elim r [
                  | err e ↦ (err (wrap "add journal match" e), m, h.close_journal j w'')
                  | ok _ ↦ start_streaming unit j m w''
                ]
          ])
      else (err (wrap "stream logs" unit_not_registered), m, w)
