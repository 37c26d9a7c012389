-- ===== src/Driver/Claims.antt =====
-- StartTask and RecoverTask, plugin/task.go: claiming a unit, and what becomes of the claim.
use nomad_driver_systemd.Prelude.{ℕ, String, true, none, ◌≡◌, inl, inr, arith, eq_iff, Option-cases}
use nomad_driver_systemd.Prelude.Map.{lookup, insert, delete, lookup-insert, lookup-delete}
use nomad_driver_systemd.Errors.{Error, ok, err}
use nomad_driver_systemd.Units.{TaskState, running}
use nomad_driver_systemd.Host.{Host}
use nomad_driver_systemd.Handler.{Handler, new_handler}
use nomad_driver_systemd.Handler.Exit.{Sound, Section-Sound, watches, new_handler-Sound}
use nomad_driver_systemd.Driver.{Driver, claim_unit}
use nomad_driver_systemd.Driver.Tasks.{bring_up, roll_back_failed_start, adopt, launch}
use nomad_driver_systemd.Driver.Ownership.{Owned, Same, Started}

-- A task that is not tracked finds the unit free, or in the hands of another task.
pub claim_unit-free :
    (unit id : String) (d : Driver)
    → Owned d
    → lookup id d.tasks ≡ none
    → (claim_unit unit id d).0 ≡ ok tt
    → lookup unit d.unit_owners ≡ none
unfolding claim_unit
claim_unit-free unit id d v n h = elim (Option-cases (lookup unit d.unit_owners)) [
  | inl free ↦ free
  | inr (owner, o) ↦
      let (th, t, u) = v.tracked unit owner o in absurd (ground (arith, eq_iff owner id))
]

pub claim_unit-ok :
    (unit id : String) (d : Driver)
    → (claim_unit unit id d).0 ≡ ok tt
    → (claim_unit unit id d).1 ≡ record d { unit_owners = insert unit id d.unit_owners }
unfolding claim_unit
claim_unit-ok unit id d h = ground arith

pub claim_unit-err :
    (unit id : String) (d : Driver) (e : Error)
    → (claim_unit unit id d).0 ≡ err e
    → (claim_unit unit id d).1 ≡ d
unfolding claim_unit
claim_unit-err unit id d e h = ground arith

module _ ⦃h : Host⦄ where
  open h use {World}

  pub bring_up-frame :
      (k : ℕ) (unit : String) (d : Driver) (w : World)
      → ((bring_up k unit d w).1.tasks ≡ d.tasks)
        × ((bring_up k unit d w).1.unit_owners ≡ d.unit_owners)
  unfolding bring_up roll_back_failed_start
  bring_up-frame k unit d w = ground arith

  -- The new handler is the task's, on its unit.
  abbrev pub Fits : String → String → Handler → Type 0
  Fits id unit th = (th.unit ≡ unit) × (th.task_id ≡ id) × Sound th

  pub adopt-frame :
      (k : ℕ) (id unit : String) (state : TaskState) (d : Driver) (w : World)
      → ((adopt k id unit state d w).0.unit ≡ unit)
        × ((adopt k id unit state d w).0.task_id ≡ id)
        × ((adopt k id unit state d w).1.tasks ≡ d.tasks)
        × ((adopt k id unit state d w).1.unit_owners ≡ d.unit_owners)
  unfolding adopt new_handler
  adopt-frame k id unit state d w = ground arith

  pub adopt-Sound :
      (k : ℕ) (id unit : String) (d : Driver) (w : World)
      → Sound (record (adopt k id unit running d w).0 { watching = true })
  unfolding adopt
  adopt-Sound k id unit d w =
      Section-Sound (watches true) (new_handler-Sound id unit k _ running _ (λ e. cc))

  pub launch-frame :
      (id : String) (th : Handler) (d : Driver) (w : World)
      → ((launch id th d w).0.tasks ≡ insert id (record th { watching = true }) d.tasks)
        × ((launch id th d w).0.unit_owners ≡ d.unit_owners)
  unfolding launch
  launch-frame id th d w = ground arith

  -- From `d`, where the unit is claimed: the task is tracked and the claim stays.
  pub record Tracked (d : Driver) (id unit : String) (e : Driver) : Type 0 where
    pub th : Handler
    pub fits : Fits id unit th
    pub tasks : e.tasks ≡ insert id th d.tasks
    pub owners : e.unit_owners ≡ d.unit_owners

  -- Or it is not, and the claim is released.
  pub record Released (d : Driver) (unit : String) (e : Driver) : Type 0 where
    pub tasks : e.tasks ≡ d.tasks
    pub owners : e.unit_owners ≡ delete unit d.unit_owners

  abbrev pub claimed : String → String → Driver → Driver
  claimed unit id d = record d { unit_owners = insert unit id d.unit_owners }

  module _ (id unit : String) (d e : Driver) (free : lookup unit d.unit_owners ≡ none) where
    pub Released-Same : Released (claimed unit id d) unit e → Same d e
    Released-Same r = record {
      tasks = r.tasks;
      owners = λ u. ground (
        arith,
        r.owners,
        lookup-delete unit u (insert unit id d.unit_owners),
        lookup-insert unit u id d.unit_owners,
        eq_iff unit u,
      );
    }

    pub Tracked-Started : Tracked (claimed unit id d) id unit e → Started d id unit e
    Tracked-Started t = record {
      th = t.th;
      its_unit = t.fits.0;
      its_id = t.fits.1;
      sound = t.fits.2;
      tasks = λ i. ground (arith, t.tasks, lookup-insert id i t.th d.tasks);
      owners = λ u. ground (arith, t.owners, lookup-insert unit u id d.unit_owners);
      was_free = free;
    }
