-- ===== src/Units.antt =====
-- pkg/systemd/unit.go: unit states, exit statuses and timestamps, which hold no state.
pub mod Laws
use nomad_driver_systemd.Prelude.{
  ℕ, ◌-◌, ◌^◌, String, Bool, true, false, ◌||◌, Option, none, some, ltb, ◌==◌, ◌=?◌, if◌then◌else◌,
}
use nomad_driver_systemd.Prelude.Int.{ℤ, pos, negsuc, ◌==ℤ◌}

-- A UnitState is a text; states outside the constants are kept as they are.
abbrev pub UnitState : Type 0
UnitState = String

abbrev pub activating : UnitState
activating = "activating"

abbrev pub deactivating : UnitState
deactivating = "deactivating"

abbrev pub active : UnitState
active = "active"

abbrev pub inactive : UnitState
inactive = "inactive"

abbrev pub failed : UnitState
failed = "failed"

abbrev pub reloading : UnitState
reloading = "reloading"

abbrev pub maintenance : UnitState
maintenance = "maintenance"

unfoldable pub is_transitioning : UnitState → Bool
is_transitioning s = s =? activating || s =? deactivating || s =? reloading

unfoldable pub is_active : UnitState → Bool
is_active s = s =? active

unfoldable pub is_inactive : UnitState → Bool
is_inactive s = s =? inactive

unfoldable pub is_failed : UnitState → Bool
is_failed s = s =? failed

unfoldable pub is_terminal : UnitState → Bool
is_terminal s = s =? inactive || s =? failed

unfoldable pub parse_unit_state : String → UnitState
parse_unit_state state = state

-- Nomad's drivers.TaskState, the three values that this program uses.
pub data TaskState : Type 0 where
  unknown running exited : TaskState

abbrev pub is_exited : TaskState → Bool
is_exited exited = true
is_exited _ = false

abbrev pub is_running : TaskState → Bool
is_running running = true
is_running _ = false

abbrev pub is_unknown : TaskState → Bool
is_unknown unknown = true
is_unknown _ = false

unfoldable pub to_task_state : UnitState → TaskState
to_task_state state =
    if state =? activating || state =? deactivating || state =? reloading
    then unknown
    else if state =? active
    then running
    else if state =? failed || state =? inactive
    then exited
    else if state =? maintenance
    then unknown
    else unknown

pub record ExitStatus : Type 0 where
  pub code : ℤ  -- int32
  pub status : ℤ  -- int32

abbrev pub cld_exited : ℤ
cld_exited = pos 1

abbrev pub cld_killed : ℤ
cld_killed = pos 2

abbrev pub cld_dumped : ℤ
cld_dumped = pos 3

-- The Err field of an exit result.
pub data ExitError : Type 0 where
  exited_with : ℤ → ExitError
  terminated_by : ℤ → ExitError
  unit_failed : ExitError

-- Nomad's drivers.ExitResult.
pub record ExitResult : Type 0 where
  pub exit_code : ℤ
  pub signal : ℤ
  pub error : Option ExitError

abbrev pub clean_exit : ExitResult
clean_exit = record { exit_code = pos 0; signal = pos 0; error = none }

abbrev pub failed_exit : ExitResult
failed_exit = record { exit_code = pos 1; signal = pos 0; error = some unit_failed }

unfoldable pub exit_result_from_status : ExitStatus → Option ExitResult
exit_result_from_status s =
    if s.code ==ℤ cld_exited
    then some (record {
      exit_code = s.status;
      signal = pos 0;
      error = if s.status ==ℤ pos 0 then none else some (exited_with s.status);
    })
    else if s.code ==ℤ cld_killed || s.code ==ℤ cld_dumped
    then some
        (record { exit_code = negsuc 0; signal = s.status; error = some (terminated_by s.status) })
    else none

-- The value of a DBus property, Go's `any`, with the cases that the program tells apart.
pub data Variant : Type 0 where
  text : String → Variant
  uint64 : ℕ → Variant
  int64 : ℤ → Variant
  int32 : ℤ → Variant
  other : Variant

-- `props[key].(string)` and `props[key].(int32)`; a missing key has the value nil, and fails too.
abbrev pub as_text : Option Variant → Option String
as_text (some (text s)) = some s
as_text _ = none

abbrev pub as_int32 : Option Variant → Option ℤ
as_int32 (some (int32 n)) = some n
as_int32 _ = none

-- ^uint64(0) and math.MaxInt64.
abbrev pub usec_infinity : ℕ
usec_infinity = 2 ^ 64 - 1

abbrev pub max_int64 : ℕ
max_int64 = 2 ^ 63 - 1

unfoldable pub parse_timestamp_usec : Variant → Option ℕ
parse_timestamp_usec (uint64 t) = if t == usec_infinity || ltb max_int64 t then none else some t
parse_timestamp_usec (int64 (pos t)) = some t
parse_timestamp_usec (int64 (negsuc t)) = none
parse_timestamp_usec _ = none
