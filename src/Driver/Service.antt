-- ===== src/Driver/Service.antt =====
-- plugin/driver.go and plugin/task.go: what Nomad may rely on when it calls the Driver. The Driver is a
-- table from tasks to units, in which each call is granted or refused.
use nomad_driver_systemd.Prelude.{
  ℕ, String, Bool, true, false, Option, none, some, List, [], ◌∷◌, ◌≡◌, ◌≢◌, ◌⊎◌, ◌=?◌,
  if◌then◌else◌,
}
use nomad_driver_systemd.Prelude.Int.{ℤ}
use nomad_driver_systemd.Prelude.Map.{lookup}
use nomad_driver_systemd.Errors.{ok, is_ok}
use nomad_driver_systemd.Config.{TaskConfig, validate}
use nomad_driver_systemd.Host.{Host}
use nomad_driver_systemd.Manager.{Manager}
use nomad_driver_systemd.Manager.Steps as Managers
use nomad_driver_systemd.Handler.{Handler}
use nomad_driver_systemd.Driver.{Driver, store_manager}
use nomad_driver_systemd.Driver.Tasks.{NomadTask, TaskHandle, start_task}
use nomad_driver_systemd.Driver.Recovery.{recover_task}
use nomad_driver_systemd.Driver.Teardown.{
  StopRace, stop_task, destroy_task, inspect_task, wait_task,
}
use nomad_driver_systemd.Driver.Setup.{PluginSetup, set_config}
use nomad_driver_systemd.Driver.Steps.{poll_task}

-- Nomad's calls.
pub data Call : Type 0 where
  starts : NomadTask → Call
  recovers : TaskHandle → Call
  stops : String → ℤ → StopRace → Call
  destroys : String → Bool → StopRace → Call
  inspects : String → Call
  waits : Bool → String → Call
  configures : PluginSetup → Call

-- The specification: the unit that each task has.
abbrev pub Table : Type 0
Table = String → Option String

abbrev pub has : Table → String → Bool
has t id = elim (t id) [ none ↦ false | some unit ↦ true ]

abbrev pub Keeps : Table → Table → Type 0
Keeps t t' = (i : String) → t' i ≡ t i

-- A new task, on a unit that no task has.
abbrev pub Adds : String → String → Table → Table → Type 0
Adds id unit t t' =
    (t id ≡ none)
    × ((i : String) → t i ≢ some unit)
    × ((i : String) → t' i ≡ (if id =? i then some unit else t i))

abbrev pub Removes : String → Table → Table → Type 0
Removes id t t' = (i : String) → t' i ≡ (if id =? i then none else t i)

module _ ⦃h : Host⦄ where
  open h use {World}

  -- Whether a call succeeds, and the Driver after it.
  unfoldable pub perform : Call → Driver → World → Bool × Driver
  perform (starts cfg) d w = let (r, d', _) = start_task cfg d w in (is_ok r, d')
  perform (recovers handle) d w = let (r, d', _) = recover_task handle d w in (is_ok r, d')
  perform (stops id timeout race) d w =
      let (r, d', _) = stop_task id timeout race d w in (is_ok r, d')
  perform (destroys id force race) d w =
      let (r, d', _) = destroy_task id force race d w in (is_ok r, d')
  perform (inspects id) d w = (is_ok (inspect_task id d), d)
  perform (waits cancelled id) d w = (is_ok (wait_task cancelled id d), d)
  perform (configures setup) d w = let (r, d', _) = set_config setup d w in (is_ok r, d')

  -- What a call that succeeds, or fails, may do to the table.
  abbrev pub Allows : Call → Bool → Table → Table → Type 0
  Allows (starts cfg) true t t' =
      (tc : TaskConfig) × (h.decode_driver_config cfg.driver_config ≡ ok tc)
      × (validate tc ≡ ok tt)
      × Adds cfg.id tc.unit t t'
  Allows (starts cfg) false t t' = Keeps t t'
  Allows (recovers handle) true t t' =
      ((t handle.config.id ≢ none) × Keeps t t')
      ⊎ ((tc : TaskConfig) × (h.get_driver_state handle.driver_state ≡ ok tc)
          × Adds handle.config.id tc.unit t t')
  Allows (recovers handle) false t t' = Keeps t t'
  Allows (stops id timeout race) b t t' = ((t id ≢ none) ⊎ (b ≡ false)) × Keeps t t'
  Allows (destroys id force race) true t t' = (t id ≢ none) × Removes id t t'
  Allows (destroys id force race) false t t' = ((t id ≡ none) ⊎ (force ≡ false)) × Keeps t t'
  Allows (inspects id) b t t' = (b ≡ has t id) × Keeps t t'
  Allows (waits cancelled id) b t t' = (b ≡ has t id) × Keeps t t'
  Allows (configures setup) b t t' = Keeps t t'

  -- The calls and their outcomes, the last one first, with polls of tasks and work on Managers
  -- between them. The world that a call starts from is any.
  pub data Run (d : Driver) : List (Call × Bool) → Driver → Type 0 where
    idle : Run d [] d
    calls :
        {es : List (Call × Bool)} {e : Driver} (c : Call) (w : World)
        → Run d es e
        → Run d ((c, (perform c e w).0) ∷ es) (perform c e w).1
    polls :
        {es : List (Call × Bool)} {e : Driver} (id : String) (th : Handler) (w : World)
        → Run d es e
        → lookup id e.tasks ≡ some th
        → Run d es (poll_task id th e w).0
    manages :
        {es : List (Call × Bool)} {e : Driver} (k : ℕ) (m : Manager)
        → Run d es e
        → Managers.Step (e.managers k) m
        → Run d es (store_manager k m e)

  -- The table serves the calls with these outcomes, from no task on.
  pub data Serves : List (Call × Bool) → Table → Type 0 where
    empty : {t : Table} → ((i : String) → t i ≡ none) → Serves [] t
    granted :
        {es : List (Call × Bool)} {t t' : Table} (c : Call) (b : Bool)
        → Serves es t
        → Allows c b t t'
        → Serves ((c, b) ∷ es) t'
    unchanged : {es : List (Call × Bool)} {t t' : Table} → Serves es t → Keeps t t' → Serves es t'
