-- ===== src/Driver.antt =====
-- plugin/driver.go and plugin/unit.go: the Driver's state, and who owns a unit.
pub mod Overlap
pub mod Shutdown
pub mod Stats
pub mod Reload
pub mod Tasks
pub mod Setup
pub mod Ownership
pub mod Claims
pub mod Pprof
pub mod Configuring
pub mod Starting
pub mod Recovering
pub mod Stopping
pub mod Escalation
pub mod Steps
pub mod Recovery
pub mod Handles
pub mod Restart
pub mod Works
pub mod Channels
pub mod Managing
pub mod Service
pub mod Serving
pub mod Teardown
use nomad_driver_systemd.Prelude.{
  ℕ, String, Bool, false, List, [], Option, none, some, ◌==◌, ◌=?◌, if◌then◌else◌,
}
use nomad_driver_systemd.Prelude.Map.{Map, lookup, insert, delete}
use nomad_driver_systemd.Errors.{Result, ok, err, message, unit_owned}
use nomad_driver_systemd.Policy.{UnitPolicy}
use nomad_driver_systemd.Manager.{Manager}
use nomad_driver_systemd.Handler.{Handler}

-- Managers are shared by reference: a Handler keeps the one that it was made with when SetConfig
-- replaces the Driver's. So they live in `managers`, by number, and `next_manager` is the next free.
-- `pprof` is the address of the running pprof server; `compute` stands for what NewManager hands to
-- the CPU trackers, which are the host's; `ended` tells that ctx was cancelled.
pub record Driver : Type 0 where
  pub tasks : Map Handler
  pub systemd_mgr : Option ℕ
  pub unit_policy : Option UnitPolicy
  pub unit_owners : Map String
  pub pprof : Option String
  pub compute : Option ℕ
  pub ended : Bool
  pub managers : ℕ → Manager
  pub next_manager : ℕ

unfoldable pub new_driver : (ℕ → Manager) → Driver
new_driver managers = record {
  tasks = [];
  systemd_mgr = none;
  unit_policy = none;
  unit_owners = [];
  pprof = none;
  compute = none;
  ended = false;
  managers = managers;
  next_manager = 0;
}

unfoldable pub get_manager : Driver → Result ℕ
get_manager d = elim d.systemd_mgr [
  | none ↦ err (message "systemd manager is not initialized; SetConfig has not run")
  | some k ↦ ok k
]

abbrev pub put : (ℕ → Manager) → ℕ → Manager → ℕ → Manager
put f k m j = if j == k then m else f j

-- The Manager behind a reference is changed for everyone who holds the reference.
abbrev pub store_manager : ℕ → Manager → Driver → Driver
store_manager k m d = record d { managers = put d.managers k m }

unfoldable pub claim_unit : String → String → Driver → Result (Unit {0}) × Driver
claim_unit unit task_id d =
    let claimed : Driver = record d { unit_owners = insert unit task_id d.unit_owners } in
    elim (lookup unit d.unit_owners) [
      | none ↦ (ok tt, claimed)
      | some owner ↦ if owner =? task_id then (ok tt, claimed) else (err (unit_owned unit owner), d)
    ]

unfoldable pub release_unit : String → Driver → Driver
release_unit unit d = record d { unit_owners = delete unit d.unit_owners }
