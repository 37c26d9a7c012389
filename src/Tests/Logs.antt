-- ===== src/Tests/Logs.antt =====
-- Journal readers and log lines at concrete inputs.
use nomad_driver_systemd.Prelude.{ℕ, suc, Bool, true, false, List, [], ◌∷◌, ◌≡◌, ◌⊎◌, arith, refl}
use nomad_driver_systemd.Prelude.Map.{lookup}
use nomad_driver_systemd.Prelude.Int.{pos}
use nomad_driver_systemd.Manager.Entries.{
  LogEntry, JournalEvent, entry, next_failed, stream_entries, log_entry,
  journal_error_backoff_minimum,
}
use nomad_driver_systemd.Handler.Logs.Copy.{
  context_done, received, stream_logs, Copied, stream_logs-entries,
}
use nomad_driver_systemd.Handler.Logs.{open_stdout}

abbrev failing : List JournalEvent
failing =
    entry (("MESSAGE", "ready") ∷ ("PRIORITY", "6") ∷ []) 7
    ∷ next_failed
    ∷ entry (("MESSAGE", "out of memory") ∷ ("PRIORITY", "3") ∷ []) 8
    ∷ entry (("MESSAGE", "bye") ∷ []) 9
    ∷ []

abbrev ready : LogEntry
ready = record { message = "ready"; priority = "6"; syslog_identifier = ""; timestamp = pos 7000 }

abbrev complaint : LogEntry
complaint = record {
  message = "out of memory";
  priority = "3";
  syslog_identifier = "";
  timestamp = pos 8000;
}

abbrev farewell : LogEntry
farewell = record { message = "bye"; priority = ""; syslog_identifier = ""; timestamp = pos 9000 }

-- Both FIFOs are there at once.
abbrev opens : ℕ → Bool × ℕ
opens w = (true, suc w)

failing-sent :
    ready ∷ complaint ∷ farewell ∷ [] ≡ (stream_entries failing journal_error_backoff_minimum).sent
unfolding stream_entries log_entry lookup
failing-sent = refl

stream_logs-entries_example :
    (((open_stdout opens 0 4 0).0 ≡ false)
      × ((stream_logs opens opens (received ready ∷ received complaint ∷ context_done ∷ []) 0).0
          ≡ []))
    ⊎ (((open_stdout opens 0 4 0).0 ≡ true)
        × Copied opens opens
            (opens (open_stdout opens 0 4 0).2).0
            failing
            (farewell ∷ [])
            (stream_logs opens opens (received ready ∷ received complaint ∷ context_done ∷ []) 0).0)
stream_logs-entries_example =
    stream_logs-entries opens opens failing journal_error_backoff_minimum (omega arith, omega arith)
      (received ready ∷ received complaint ∷ context_done ∷ []) (farewell ∷ []) failing-sent 0
