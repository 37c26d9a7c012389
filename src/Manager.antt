-- ===== src/Manager.antt =====
-- pkg/systemd: the Manager's state, its connection and its registry of units (systemd.go and the
-- registration part of unit.go). A critical section is one update. The calls of cancel functions that
-- follow the release of a lock are in the update of their function here; Cancelling takes them apart.
pub mod Contexts
pub mod Dispatch
pub mod Entries
pub mod Lifetime
pub mod Backoff
pub mod Jobs
pub mod Connect
pub mod Journal
pub mod Stats
pub mod Sampling
pub mod Memory
pub mod Found
pub mod Readings
pub mod Measured
pub mod Registry
pub mod Steps
pub mod Sections
pub mod Cancelling
use nomad_driver_systemd.Prelude.{
  ℕ, suc, ◌*◌, String, Bool, true, false, ◌||◌, not, Option, none, some, List, [], ◌∷◌, ◌==◌,
  if◌then◌else◌,
}
use nomad_driver_systemd.Prelude.Map.{Map, lookup, insert, delete}
use nomad_driver_systemd.Errors.{Error, Result, ok, err, no_connection}
use nomad_driver_systemd.Units.{Variant, as_text}
use nomad_driver_systemd.Host.{Host, OpContext}

-- time.Second, in nanoseconds.
abbrev pub second : ℕ
second = 1_000_000_000

abbrev pub job_timeout : ℕ
job_timeout = 120 * second

abbrev pub property_timeout : ℕ
property_timeout = 10 * second

-- Everything tracked for one managed unit. Channels, journal readers and CPU trackers are named by
-- numbers; `cached_at` is none for the zero time.
pub record UnitEntry : Type 0 where
  pub wake : ℕ
  pub cancel_journal : Option ℕ
  pub control_group : String
  pub cached_at : Option ℕ
  pub cpu : Option ℕ

-- `pending` tells of a wake channel whether its one place is taken, `cancelled` of a journal
-- reader whether its context was cancelled, `shut_down` whether the Manager's own context was.
pub record Manager : Type 0 where
  pub conn : Option ℕ
  pub units : Map UnitEntry
  pub stopping : Bool
  pub shut_down : Bool
  pub next_wake : ℕ
  pub pending : ℕ → Bool
  pub next_reader : ℕ
  pub cancelled : ℕ → Bool
  pub journal_wg : ℕ

abbrev pub update : (ℕ → Bool) → ℕ → Bool → ℕ → Bool
update f k b j = if j == k then b else f j

-- The Manager that NewManager builds on a fresh connection.
unfoldable pub new_manager : ℕ → Manager
new_manager c = record {
  conn = some c;
  units = [];
  stopping = false;
  shut_down = false;
  next_wake = 0;
  pending = λ _. false;
  next_reader = 0;
  cancelled = λ _. false;
  journal_wg = 0;
}

-- A journal reader's cancel function, which may be nil, marks its context as cancelled.
unfoldable pub cancel : Option ℕ → (ℕ → Bool) → ℕ → Bool
cancel none f = f
cancel (some r) f = update f r true

abbrev pub cancel_reader : Option ℕ → Manager → Manager
unfolding cancel
cancel_reader o m = record m { cancelled = cancel o m.cancelled }

abbrev pub reader_of : Option UnitEntry → Option ℕ
reader_of none = none
reader_of (some st) = st.cancel_journal

unfoldable pub unit_locked : Manager → String → Option UnitEntry
unit_locked m unit = lookup unit m.units

unfoldable pub registered : Manager → String → Bool
unfolding unit_locked
registered m unit = elim (unit_locked m unit) [ none ↦ false | some st ↦ true ]

unfoldable pub wake_channel : Manager → String → Option ℕ
unfolding unit_locked
wake_channel m unit = elim (unit_locked m unit) [ none ↦ none | some st ↦ some st.wake ]

-- The send does not block: a channel whose place is taken keeps its one value.
unfoldable pub wake_unit : String → Manager → Manager
unfolding unit_locked
wake_unit unit m = record m {
  pending = elim (unit_locked m unit) [
    | none ↦ m.pending
    | some st ↦ update m.pending st.wake true
  ];
}

unfoldable pub store_control_group : String → String → ℕ → Manager → Manager
unfolding unit_locked
store_control_group unit path t m = record m {
  units = elim (unit_locked m unit) [
    | none ↦ m.units
    | some st ↦ insert unit (record st { control_group = path; cached_at = some t }) m.units
  ];
}

-- A ControlGroup property that is missing or no text counts as empty.
unfoldable pub control_group_of : Map Variant → String
control_group_of props = elim (as_text (lookup "ControlGroup" props)) [ none ↦ "" | some s ↦ s ]

-- The critical section of startJournalReader where it does not refuse.
abbrev pub start_locked : String → ℕ → UnitEntry → Manager → Manager
start_locked unit r st m = record m {
  units = insert unit (record st { cancel_journal = some r }) m.units;
  journal_wg = suc m.journal_wg;
}

-- startJournalReader: registers reader `r`, and stops the one that it replaces.
unfoldable pub start_journal_reader : String → ℕ → Manager → Bool × Manager
unfolding unit_locked cancel
start_journal_reader unit r m = elim (unit_locked m unit) [
  | none ↦ (false, m)
  | some st ↦
      if m.stopping
      then (false, m)
      else (true, cancel_reader st.cancel_journal (start_locked unit r st m))
]

-- The critical section of UnregisterUnit.
abbrev pub unregister_locked : String → Manager → Manager
unregister_locked unit m = record m { units = delete unit m.units }

unfoldable pub unregister_unit : String → Manager → Manager
unfolding unit_locked cancel
unregister_unit unit m = cancel_reader (reader_of (unit_locked m unit)) (unregister_locked unit m)

-- What RegisterUnit enters for a unit: only its new wake channel is set.
abbrev pub new_entry : ℕ → UnitEntry
new_entry wake = record {
  wake = wake;
  cancel_journal = none;
  control_group = "";
  cached_at = none;
  cpu = none;
}

-- The critical section of RegisterUnit.
abbrev pub enter_locked : String → Manager → Manager
enter_locked unit m = record m {
  units = insert unit (new_entry m.next_wake) m.units;
  next_wake = suc m.next_wake;
  pending = update m.pending m.next_wake false;
}

-- The part of RegisterUnit before the DBus round-trip.
unfoldable pub enter_unit : String → Manager → Manager
unfolding unit_locked cancel
enter_unit unit m = cancel_reader (reader_of (lookup unit m.units)) (enter_locked unit m)

unfoldable pub cancel_all : Map UnitEntry → (ℕ → Bool) → ℕ → Bool
unfolding cancel
cancel_all [] f = f
cancel_all ((_, st) ∷ rest) f = cancel_all rest (cancel st.cancel_journal f)

-- calculateCPUPercent's `st.cpu = ...`, on the entry found under the same lock.
unfoldable pub set_tracker : String → UnitEntry → ℕ → Manager → Manager
set_tracker unit st tracker m = record m {
  units = insert unit (record st { cpu = some tracker }) m.units;
}

-- Stop without the connection: contexts cancelled, new readers refused, and all units dropped. The
-- wait for the readers, whose contexts are all cancelled, ends with their count at zero.
unfoldable pub shut : Manager → Manager
unfolding cancel_all
shut m = record m {
  shut_down = true;
  stopping = true;
  cancelled = cancel_all m.units m.cancelled;
  units = [];
  journal_wg = 0;
}

module _ ⦃h : Host⦄ where
  open h use {World}

  unfoldable pub healthy : Manager → World → Bool
  healthy m w = elim m.conn [ none ↦ false | some c ↦ h.connected c w ]

  unfoldable pub get_conn : Manager → World → Result ℕ
  get_conn m w = elim m.conn [
    | none ↦ err no_connection
    | some c ↦ if h.connected c w then ok c else err no_connection
  ]

  unfoldable pub set_conn : ℕ → Manager → World → Manager × World
  set_conn c m w = (record m { conn = some c }, elim m.conn [ none ↦ w | some old ↦ h.close old w ])

  -- opContext: the caller's context, the Manager's shutdown, or the limit, whichever is first.
  unfoldable pub op_context : Manager → Bool → ℕ → OpContext
  op_context m ctx limit = record { ended = ctx || m.shut_down; limit = limit }

  unfoldable pub cache_unit_properties : Bool → String → Manager → World → Manager × World
  cache_unit_properties ctx unit m w = elim (get_conn m w) [
    | err e ↦ (m, w)
    | ok c ↦
        let (r, w') = h.get_unit_properties (op_context m ctx property_timeout) c unit w in
        elim r [
          | err e ↦ (m, w')
          | ok props ↦
              let (t, w'') = h.now w' in
              (store_control_group unit (control_group_of props) t m, w'')
        ]
  ]

  unfoldable pub register_unit : Bool → String → Manager → World → Manager × World
  register_unit ctx unit m w = cache_unit_properties ctx unit (enter_unit unit m) w

  -- Stop. The two waits end with no goroutine of the Manager left, so its reader count is zero.
  unfoldable pub stop : Manager → World → Manager × World
  stop m w = (shut m, elim m.conn [ none ↦ w | some c ↦ h.close c w ])
