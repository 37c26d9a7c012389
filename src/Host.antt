-- ===== src/Host.antt =====
-- What the program takes from outside: systemd over DBus (the dbusConn interface of
-- pkg/systemd/conn.go), the journal, the file system, the clock, Nomad's CPU statistics, event stream
-- and codecs, the regular expressions of the policy and the pprof listener. `read_file` reads a file
-- of a cgroup, by the cgroup's path below Manager.cgroupRoot and the file's name, as code points.
-- Each call may change the world, so it returns the world after it. Connections, jobs, journals
-- and CPU trackers are named by numbers, as pointers are.
use nomad_driver_systemd.Prelude.{ℕ, String, Bool, List}
use nomad_driver_systemd.Prelude.Map.{Map}
use nomad_driver_systemd.Errors.{Error, Result, ok, err, wrap}
use nomad_driver_systemd.Units.{Variant}
use nomad_driver_systemd.Policy.{Regexps}
use nomad_driver_systemd.Config.{Config, TaskConfig}

-- The context of one DBus operation: it has ended already, or ends within `limit` nanoseconds.
pub record OpContext : Type 0 where
  pub ended : Bool
  pub limit : ℕ

-- What the select of waitJobResult receives first: the job's result, or the context's end.
pub data JobEvent : Type 0 where
  posted : String → JobEvent
  ended : Error → JobEvent

-- Nomad's drivers.TaskEvent, its message and annotations by the unit and the state they name.
pub record TaskEvent : Type 0 where
  pub task_id : String
  pub alloc_id : String
  pub task_name : String
  pub timestamp : ℕ
  pub unit : String
  pub state : String

pub record Host : Type 1 where
  pub World : Type 0
  pub Float : Type 0
  pub float_zero : Float
  pub new_connection : World → Result ℕ × World
  pub connected : ℕ → World → Bool
  pub close : ℕ → World → World
  pub subscribe : ℕ → World → Result (Unit {0}) × World
  pub set_properties_subscriber : ℕ → World → World
  pub enqueue_start : OpContext → ℕ → String → World → Result ℕ × World
  pub enqueue_stop : OpContext → ℕ → String → World → Result ℕ × World
  pub await_job : OpContext → ℕ → World → JobEvent × World
  pub kill_all : OpContext → ℕ → String → World → Result (Unit {0}) × World
  pub get_unit_property : OpContext → ℕ → String → String → World → Result Variant × World
  pub get_unit_properties : OpContext → ℕ → String → World → Result (Map Variant) × World
  pub get_service_properties : OpContext → ℕ → String → World → Result (Map Variant) × World
  pub now : World → ℕ × World
  pub read_file : String → String → World → Result (List ℕ) × World
  pub file_exists : String → World → Bool
  pub new_tracker : World → ℕ × World
  pub tracker_percent : ℕ → ℕ → World → Float × World
  pub tracker_ticks : ℕ → Float → World → Float × World
  pub open_journal : World → Result ℕ × World
  pub add_match : ℕ → String → World → Result (Unit {0}) × World
  pub seek_realtime : ℕ → ℕ → World → Result (Unit {0}) × World
  pub seek_tail : ℕ → World → Result (Unit {0}) × World
  pub close_journal : ℕ → World → World
  pub regexps : Regexps
  pub decode_config : String → Result Config
  pub decode_driver_config : String → Result TaskConfig
  pub set_driver_state : TaskConfig → Result String
  pub get_driver_state : String → Result TaskConfig
  pub emit_event : TaskEvent → World → Result (Unit {0}) × World
  pub listen : String → World → Result (Unit {0}) × World
  pub unlisten : String → World → World

module _ ⦃h : Host⦄ where
  -- A chain of calls, ended by the first error.
  abbrev pub Query : Type 0 → Type 0
  Query A = h.World → Result A × h.World

  abbrev pub resume : {A B : Type 0} → Result A → (A → Query B) → Query B
  resume (ok a) f w = f a w
  resume (err e) f w = (err e, w)

  infixl 5 ◌>>=◌ ◌>>◌
  abbrev pub ◌>>=◌ : {A B : Type 0} → Query A → (A → Query B) → Query B
  ◌>>=◌ m f w = resume (m w).0 f (m w).1

  abbrev pub ◌>>◌ : {B : Type 0} → Query (Unit {0}) → Query B → Query B
  m >> k = m >>= λ _. k

  abbrev pub return : {A : Type 0} → A → Query A
  return a w = (ok a, w)

  abbrev pub fail : {A : Type 0} → Error → Query A
  fail e w = (err e, w)

  abbrev pub lift : {A : Type 0} → Result A → Query A
  lift r w = (r, w)

  -- `fmt.Errorf("s: %w", err)` where a call fails.
  abbrev pub on_error : {A : Type 0} → String → Query A → Query A
  on_error s m w = elim (m w).0 [ ok a ↦ (ok a, (m w).1) | err e ↦ (err (wrap s e), (m w).1) ]
