-- ===== src/Handler/Logs/Copy.antt =====
-- pkg/task/logs.go: streamLogs, from the journal reader's channel to the task's FIFOs.
use nomad_driver_systemd.Prelude.{
  refl, ap, ◌∙◌, ℕ, ◌-◌, Bool, true, false, ◌&&◌, List, [], ◌∷◌, ◌++◌, map, ◌≡◌, ◌⊎◌, inl, inr, All,
  if◌then◌else◌, Bool-cases,
}
use nomad_driver_systemd.Manager.Entries.{
  LogEntry, JournalEvent, stream_entries, entries, Delay, stream_entries-entries,
}
use nomad_driver_systemd.Handler.Logs.{
  stdout, Line, write_log_entry, is_stderr, is_error_level, open_stdout, max_stdout_open_retries,
  write_log_entry-is_stderr,
}

-- What the loop's select receives.
pub data LogEvent : Type 0 where
  context_done channel_closed : LogEvent
  received : LogEntry → LogEvent

-- The entry on the FIFOs that are open: without stderr, the variable stderr holds stdout.
unfoldable pub write_to : (has_stderr : Bool) → LogEntry → Line
write_to has_stderr e =
    let line = write_log_entry e in
    record line { stream = if has_stderr then line.stream else stdout }

-- The lines that the loop hands to the FIFOs. A write that fails is only logged.
unfoldable pub copy_entries : (has_stderr : Bool) → List LogEvent → List Line
copy_entries has_stderr [] = []
copy_entries has_stderr (context_done ∷ events) = []
copy_entries has_stderr (channel_closed ∷ events) = []
copy_entries has_stderr (received e ∷ events) =
    write_to has_stderr e ∷ copy_entries has_stderr events

-- The entries that the loop takes from the channel before it ends.
abbrev pub taken : List LogEvent → List LogEntry
taken [] = []
taken (context_done ∷ events) = []
taken (channel_closed ∷ events) = []
taken (received e ∷ events) = e ∷ taken events

-- A line is on stderr exactly if stderr is open and the level on the line is error or worse.
abbrev pub Placed : Bool → Line → Type 0
Placed has_stderr l = is_stderr l.stream ≡ (has_stderr && is_error_level l.level)

write_to-Placed : (b : Bool) (e : LogEntry) → Placed b (write_to b e)
unfolding write_to
write_to-Placed true e = write_log_entry-is_stderr e
write_to-Placed false e = refl

copy_entries-Placed : (b : Bool) (events : List LogEvent) → All (Placed b) (copy_entries b events)
unfolding copy_entries
copy_entries-Placed b [] = tt
copy_entries-Placed b (context_done ∷ events) = tt
copy_entries-Placed b (channel_closed ∷ events) = tt
copy_entries-Placed b (received e ∷ events) = (write_to-Placed b e, copy_entries-Placed b events)

copy_entries-taken :
    (b : Bool) (events : List LogEvent) (rest : List LogEntry)
    → copy_entries b events ++ map (write_to b) rest ≡ map (write_to b) (taken events ++ rest)
unfolding copy_entries
copy_entries-taken b [] rest = refl
copy_entries-taken b (context_done ∷ events) rest = refl
copy_entries-taken b (channel_closed ∷ events) rest = refl
copy_entries-taken b (received e ∷ events) rest =
    ap (λ ls. write_to b e ∷ ls) (copy_entries-taken b events rest)

module _ {World : Type 0} (open_out open_err : World → Bool × World) where
  -- streamLogs, with the lines that it writes and the world after the files are opened.
  unfoldable pub stream_logs : List LogEvent → World → List Line × World
  unfolding copy_entries
  stream_logs events w =
      let (opened, _, w') = open_stdout open_out 0 (max_stdout_open_retries - 1) w in
      if opened
      then (let (has_stderr, w'') = open_err w' in (copy_entries has_stderr events, w''))
      else ([], w')

  -- With or without stderr: the lines, and then those of the entries still on the channel, are the
  -- journal's.
  abbrev pub Copied : Bool → List JournalEvent → List LogEntry → List Line → Type 0
  Copied has_stderr journal rest lines =
      (lines ++ map (write_to has_stderr) rest ≡ map (write_to has_stderr) (entries journal))
      × All (Placed has_stderr) lines

  -- A journal reader, with a delay within its bounds, and streamLogs, where what the loop has taken
  -- and what is left on the channel is what the reader has sent: without stdout nothing is written;
  -- otherwise the lines written, followed by those of the entries left, are those of the journal's
  -- entries with a message, in order and each once, and a line is on stderr exactly if stderr is
  -- open and the line's level is error or worse.
  pub stream_logs-entries :
      (journal : List JournalEvent) (d : ℕ)
      → Delay d
      → (events : List LogEvent) (rest : List LogEntry)
      → taken events ++ rest ≡ (stream_entries journal d).sent
      → (w : World)
      → let (opened, _, w') = open_stdout open_out 0 (max_stdout_open_retries - 1) w in
        ((opened ≡ false) × ((stream_logs events w).0 ≡ []))
        ⊎ ((opened ≡ true) × Copied (open_err w').0 journal rest (stream_logs events w).0)
  unfolding stream_logs
  stream_logs-entries journal d b events rest sent w =
      let opening = open_stdout open_out 0 (max_stdout_open_retries - 1) w in
      let has_stderr = (open_err opening.2).0 in
      elim (Bool-cases opening.0) [
        | inr n ↦ inl (n, rw n refl)
        | inl y ↦ inr (
          y,
          rw y (
            copy_entries-taken has_stderr events rest
                ∙ ap (map (write_to has_stderr)) (sent ∙ (stream_entries-entries journal d b).0),
            copy_entries-Placed has_stderr events,
          ),
        )
      ]
