-- ===== src/Manager/Entries.antt =====
-- pkg/systemd/journal.go: the loop of a journal reader's goroutine.
use nomad_driver_systemd.Prelude.{
  refl, ap, subst, sym, ◌∙◌, ℕ, ◌*◌, ◌-◌, ◌^◌, ◌%◌, ◌≤◌, min, String, List, [], ◌∷◌, Option, none,
  some, ◌≡◌, arith, All, ltb, if◌then◌else◌,
}
use nomad_driver_systemd.Prelude.Int.{ℤ, pos, negsuc}
use nomad_driver_systemd.Prelude.Map.{Map, lookup}

-- An absent field is the empty text; the timestamp is in nanoseconds of Unix time.
pub record LogEntry : Type 0 where
  pub message : String
  pub priority : String
  pub syslog_identifier : String
  pub timestamp : ℤ

-- In nanoseconds.
abbrev pub journal_error_backoff_minimum : ℕ
journal_error_backoff_minimum = 500 * 1000000

abbrev pub journal_error_backoff_maximum : ℕ
journal_error_backoff_maximum = 5 * 1000000000

-- What the journal answers in one round of the loop: Next fails, there is no entry yet, GetEntry
-- fails, or there is an entry with its fields and its time in microseconds.
pub data JournalEvent : Type 0 where
  next_failed no_entry entry_failed : JournalEvent
  entry : Map String → ℕ → JournalEvent

-- int64(n) * 1000 for a uint64 n.
abbrev pub signed64 : ℕ → ℤ
signed64 n = if ltb n (2 ^ 63) then pos n else negsuc (2 ^ 64 - 1 - n)

abbrev pub nanoseconds : ℕ → ℤ
nanoseconds usec = signed64 ((usec * 1000) % 2 ^ 64)

abbrev pub field : String → Map String → String
field key fields = elim (lookup key fields) [ none ↦ "" | some s ↦ s ]

unfoldable pub log_entry : Map String → ℕ → Option LogEntry
log_entry fields usec = elim (lookup "MESSAGE" fields) [
  | none ↦ none
  | some message ↦ some (record {
    message = message;
    priority = field "PRIORITY" fields;
    syslog_identifier = field "SYSLOG_IDENTIFIER" fields;
    timestamp = nanoseconds usec;
  })
]

-- What a reader has sent on logCh and how long it has slept after errors, both from the first on.
pub record Streamed : Type 0 where
  pub sent : List LogEntry
  pub delays : List ℕ

abbrev pub and_sent : Option LogEntry → Streamed → Streamed
and_sent none s = s
and_sent (some e) s = record s { sent = e ∷ s.sent }

-- The rounds of the loop, until its context is cancelled: that is where the events end.
unfoldable pub stream_entries : List JournalEvent → ℕ → Streamed
unfolding log_entry
stream_entries [] err_backoff = record { sent = []; delays = [] }
stream_entries (next_failed ∷ events) err_backoff =
    let s = stream_entries events (min (err_backoff * 2) journal_error_backoff_maximum) in
    record s { delays = err_backoff ∷ s.delays }
stream_entries (no_entry ∷ events) err_backoff = stream_entries events journal_error_backoff_minimum
stream_entries (entry_failed ∷ events) err_backoff =
    stream_entries events journal_error_backoff_minimum
stream_entries (entry fields usec ∷ events) err_backoff =
    and_sent (log_entry fields usec) (stream_entries events journal_error_backoff_minimum)

-- The entries of the journal that have a message, in the order in which it gives them.
abbrev pub with_message : Option LogEntry → List LogEntry → List LogEntry
with_message none es = es
with_message (some e) es = e ∷ es

abbrev pub entries : List JournalEvent → List LogEntry
unfolding log_entry
entries [] = []
entries (entry fields usec ∷ events) = with_message (log_entry fields usec) (entries events)
entries (_ ∷ events) = entries events

abbrev pub Delay : ℕ → Type 0
Delay d = (journal_error_backoff_minimum ≤ d) × (d ≤ journal_error_backoff_maximum)

and_sent-sent : (o : Option LogEntry) (s : Streamed) → (and_sent o s).sent ≡ with_message o s.sent
and_sent-sent o s = ground arith

and_sent-delays : (o : Option LogEntry) (s : Streamed) → (and_sent o s).delays ≡ s.delays
and_sent-delays o s = ground arith

-- A journal reader that starts with a delay within the bounds sends exactly the entries that have a
-- message, in order and none twice, whatever errors lie between them, and each of its delays is
-- within the bounds.
pub stream_entries-entries :
    (events : List JournalEvent) (d : ℕ)
    → Delay d
    → ((stream_entries events d).sent ≡ entries events) × All Delay (stream_entries events d).delays
unfolding stream_entries
stream_entries-entries [] d b = (refl, tt)
stream_entries-entries (next_failed ∷ events) d b =
    let (s, a) =
      stream_entries-entries events (min (d * 2) journal_error_backoff_maximum) (ground arith) in
    (s, (b, a))
stream_entries-entries (no_entry ∷ events) d b =
    stream_entries-entries events journal_error_backoff_minimum (omega arith, omega arith)
stream_entries-entries (entry_failed ∷ events) d b =
    stream_entries-entries events journal_error_backoff_minimum (omega arith, omega arith)
stream_entries-entries (entry fields usec ∷ events) d b =
    let (s, a) =
      stream_entries-entries events journal_error_backoff_minimum (omega arith, omega arith) in
    (
      and_sent-sent (log_entry fields usec) _ ∙ ap (with_message (log_entry fields usec)) s,
      subst (All Delay) (sym (and_sent-delays (log_entry fields usec) _)) a,
    )
