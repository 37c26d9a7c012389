-- ===== src/Driver/Overlap.antt =====
-- plugin/task.go under concurrency: the steps between which RPCs on different tasks interleave.
pub mod Held
pub mod Exclusive
pub mod Covers
pub mod Rpcs
use nomad_driver_systemd.Prelude.{String, Option, none, some, ◌≡◌, if◌then◌else◌}
use nomad_driver_systemd.Prelude.Map.{Map, lookup, insert, delete}
use nomad_driver_systemd.Errors.{Result, is_ok}
use nomad_driver_systemd.Handler.{Handler}
use nomad_driver_systemd.Driver.{Driver, claim_unit, release_unit}
use nomad_driver_systemd.Driver.Tasks.{track}

-- How far the RPC on a task is: it has not found the task in the Store, or it holds the claim on a
-- unit, as StartTask and RecoverTask do until they track the task, and DestroyTask from the Delete
-- on.
pub data Phase : Type 0 where
  checked : Phase
  holding : String → Phase

-- The Driver, and the RPCs in flight by task. Nomad makes one such call at a time for a task.
pub record Calls : Type 0 where
  pub driver : Driver
  pub flight : Map Phase

unfoldable pub claim : String → String → Calls → Calls
claim id unit c =
    let (r, d) = claim_unit unit id c.driver in
    record {
      driver = d;
      flight = if is_ok r then insert id (holding unit) c.flight else delete id c.flight;
    }

unfoldable pub give_up : String → String → Calls → Calls
give_up id unit c = record { driver = release_unit unit c.driver; flight = delete id c.flight }

unfoldable pub store_task : String → Handler → Calls → Calls
store_task id th c = record { driver = track id th c.driver; flight = delete id c.flight }

unfoldable pub drop_task : String → Handler → Calls → Calls
drop_task id th c = record {
  driver = record c.driver { tasks = delete id c.driver.tasks };
  flight = insert id (holding th.unit) c.flight;
}

-- `works` is all that an RPC or a goroutine does to Managers, policies and the like; `returns` is the
-- return of an RPC that has claimed nothing.
pub data Step (c : Calls) : Calls → Type 0 where
  enters :
      (id : String)
      → lookup id c.flight ≡ none
      → lookup id c.driver.tasks ≡ none
      → Step c (record c { flight = insert id checked c.flight })
  returns :
      (id : String)
      → lookup id c.flight ≡ some checked
      → Step c (record c { flight = delete id c.flight })
  claims : (id unit : String) → lookup id c.flight ≡ some checked → Step c (claim id unit c)
  gives_up :
      (id unit : String) → lookup id c.flight ≡ some (holding unit) → Step c (give_up id unit c)
  stores :
      (id : String) (th : Handler)
      → lookup id c.flight ≡ some (holding th.unit)
      → Step c (store_task id th c)
  drops :
      (id : String) (th : Handler)
      → lookup id c.flight ≡ none
      → lookup id c.driver.tasks ≡ some th
      → Step c (drop_task id th c)
  updates :
      (id : String) (th th' : Handler)
      → lookup id c.driver.tasks ≡ some th
      → th'.unit ≡ th.unit
      → Step c (record c { driver = track id th' c.driver })
  works :
      (d : Driver)
      → d.tasks ≡ c.driver.tasks
      → d.unit_owners ≡ c.driver.unit_owners
      → Step c (record c { driver = d })

pub data Reach (c : Calls) : Calls → Type 0 where
  here : Reach c c
  next : {e f : Calls} → Reach c e → Step e f → Reach c f
