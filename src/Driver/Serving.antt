-- ===== src/Driver/Serving.antt =====
-- The Driver's RPCs against the table of tasks that they keep.
use nomad_driver_systemd.Prelude.{
  ℕ, String, Bool, false, none, some, List, ◌≡◌, ◌≢◌, refl, inl, inr, arith, eq_iff, Option-cases,
}
use nomad_driver_systemd.Prelude.Int.{ℤ}
use nomad_driver_systemd.Prelude.Map.{lookup, lookup-insert}
use nomad_driver_systemd.Errors.{ok, is_ok, Result-cases}
use nomad_driver_systemd.Config.{TaskConfig, validate}
use nomad_driver_systemd.Host.{Host}
use nomad_driver_systemd.Manager.{Manager}
use nomad_driver_systemd.Handler.{Handler, poll_round}
use nomad_driver_systemd.Handler.Observe.{poll_round-Sections}
use nomad_driver_systemd.Driver.{Driver, new_driver}
use nomad_driver_systemd.Driver.Tasks.{NomadTask, checked_config}
use nomad_driver_systemd.Driver.Teardown.{StopRace, stop_task, inspect_task, wait_task}
use nomad_driver_systemd.Driver.Ownership.{Owned, Same, Started}
use nomad_driver_systemd.Driver.Starting.{start_task_cases}
use nomad_driver_systemd.Driver.Recovering.{recover_task_cases}
use nomad_driver_systemd.Driver.Stopping.{stop_task-Frame, destroy_task_cases}
use nomad_driver_systemd.Driver.Steps.{
  Step, here, starts_task, recovers_task, stops_task, destroys_task, sets_config, polls_task,
  poll_task, Sections-frame, set_config-Same, Step-Owned, Reach-Owned,
}
use nomad_driver_systemd.Driver.Service.{
  Call, starts, recovers, stops, destroys, inspects, waits, configures, Table, has, Keeps, Adds,
  perform, Allows, Run, idle, calls, polls, manages, Serves, empty, granted, unchanged,
}

-- The table that a Driver has.
abbrev pub units_of : Driver → Table
units_of d id = elim (lookup id d.tasks) [ none ↦ none | some th ↦ some th.unit ]

tracked-has : (id : String) (d : Driver) → lookup id d.tasks ≢ none → units_of d id ≢ none
tracked-has id d t = elim (Option-cases (lookup id d.tasks)) [
  | inl n ↦ absurd (t n)
  | inr (th, e) ↦ λ u. ground arith
]

Same-Keeps : {d e : Driver} → Same d e → Keeps (units_of d) (units_of e)
Same-Keeps s i = ground (arith, s.tasks)

Started-Adds :
    {d e : Driver} {id unit : String}
    → Owned d
    → lookup id d.tasks ≡ none
    → Started d id unit e
    → Adds id unit (units_of d) (units_of e)
Started-Adds {d} {e} {id} {unit} v n s = (
  ground arith,
  λ i u. elim (Option-cases (lookup i d.tasks)) [
    | inl m ↦ ground arith
    | inr (th, t) ↦ ground (arith, v.owns i th t, s.was_free)
  ],
  λ i. ground (arith, s.tasks i, s.its_unit),
)

module _ ⦃h : Host⦄ where
  open h use {World}

  checked_config-ok :
      (cfg : NomadTask) (d : Driver) (tc : TaskConfig)
      → checked_config cfg d ≡ ok tc
      → (h.decode_driver_config cfg.driver_config ≡ ok tc) × (validate tc ≡ ok tt)
  unfolding checked_config
  checked_config-ok cfg d tc c = elim (Result-cases (h.decode_driver_config cfg.driver_config)) [
    | inr (e, q) ↦ absurd (ground arith)
    | inl (tc', q) ↦ elim (Result-cases (validate tc')) [
      | inr (e, p) ↦ absurd (ground arith)
      | inl (u, p) ↦ (ground arith, ground arith)
    ]
  ]

  stop_task-unknown :
      (id : String) (timeout : ℤ) (race : StopRace) (d : Driver) (w : World)
      → lookup id d.tasks ≡ none
      → is_ok (stop_task id timeout race d w).0 ≡ false
  unfolding stop_task
  stop_task-unknown id timeout race d w n = ground arith

  inspect_task-has : (id : String) (d : Driver) → is_ok (inspect_task id d) ≡ has (units_of d) id
  unfolding inspect_task
  inspect_task-has id d = ground arith

  wait_task-has :
      (cancelled : Bool) (id : String) (d : Driver)
      → is_ok (wait_task cancelled id d) ≡ has (units_of d) id
  unfolding wait_task
  wait_task-has cancelled id d = ground arith

  perform-Allows :
      (c : Call) (d : Driver) (w : World)
      → Owned d
      → Allows c (perform c d w).0 (units_of d) (units_of (perform c d w).1)
  unfolding perform
  perform-Allows (starts cfg) d w v = elim (start_task_cases cfg d w v) [
    | inl (f, same) ↦ rw f (Same-Keeps same)
    | inr (tc, f, n, c, s) ↦
        let (decodes, valid) = checked_config-ok cfg d tc c in
        rw f (tc, decodes, valid, Started-Adds v n s)
  ]
  perform-Allows (recovers handle) d w v = elim (recover_task_cases handle d w v) [
    | inl (t, f, same) ↦ rw f (rw same (inl (tracked-has handle.config.id d t, λ i. refl)))
    | inr o ↦ elim o [
      | inl (f, same) ↦ rw f (Same-Keeps same)
      | inr (tc, f, n, c, s) ↦ rw f (inr (tc, c, Started-Adds v n s))
    ]
  ]
  perform-Allows (stops id timeout race) d w v = (
    elim (Option-cases (lookup id d.tasks)) [
      | inl n ↦ inr (stop_task-unknown id timeout race d w n)
      | inr (th, t) ↦ inl (λ u. ground arith)
    ],
    λ i. ground (arith, (stop_task-Frame id timeout race d w).tasks),
  )
  perform-Allows (destroys id force race) d w v = elim (destroy_task_cases id force race d w) [
    | inl (n, same) ↦ rw same (inl (ground arith), λ i. refl)
    | inr (th, t, o) ↦ elim o [
      | inl (x, f, r, same, _) ↦ rw r (rw same (inr f, λ i. refl))
      | inr (c, r, gone, _) ↦ rw r ((λ u. ground arith), λ i. ground (arith, gone.tasks i))
    ]
  ]
  perform-Allows (inspects id) d w v = (inspect_task-has id d, λ i. refl)
  perform-Allows (waits cancelled id) d w v = (wait_task-has cancelled id d, λ i. refl)
  perform-Allows (configures setup) d w v = Same-Keeps (set_config-Same setup d w)

  perform-Owned : (c : Call) (d : Driver) (w : World) → Owned d → Owned (perform c d w).1
  unfolding perform
  perform-Owned (starts cfg) d w v = Step-Owned (starts_task cfg w) v
  perform-Owned (recovers handle) d w v = Step-Owned (recovers_task handle w) v
  perform-Owned (stops id timeout race) d w v = Step-Owned (stops_task id timeout race w) v
  perform-Owned (destroys id force race) d w v = Step-Owned (destroys_task id force race w) v
  perform-Owned (inspects id) d w v = v
  perform-Owned (waits cancelled id) d w v = v
  perform-Owned (configures setup) d w v = Step-Owned (sets_config setup w) v

  poll_task-Keeps :
      (id : String) (th : Handler) (d : Driver) (w : World)
      → lookup id d.tasks ≡ some th
      → Keeps (units_of d) (units_of (poll_task id th d w).0)
  unfolding poll_task
  poll_task-Keeps id th d w t i =
      let th' = (poll_round (d.managers th.units) th w).0 in
      let (u, _) = Sections-frame (poll_round-Sections (d.managers th.units) th w) in
      ground (arith, lookup-insert id i th' d.tasks, eq_iff id i)

  Run-Owned :
      (ms : ℕ → Manager) {es : List (Call × Bool)} {e : Driver} → Run (new_driver ms) es e → Owned e
  Run-Owned ms idle = Reach-Owned ms here
  Run-Owned ms (calls {es} {e} c w r) = perform-Owned c e w (Run-Owned ms r)
  Run-Owned ms (polls id th w r t) = Step-Owned (polls_task id th w t) (Run-Owned ms r)
  Run-Owned ms (manages k m r s) = Step-Owned (Step.manages k m s) (Run-Owned ms r)

  new_driver-untracked : (ms : ℕ → Manager) (i : String) → units_of (new_driver ms) i ≡ none
  unfolding new_driver lookup
  new_driver-untracked ms i = refl

  -- From New on, with polls of the tasks and work on the Managers between the calls: the outcomes of
  -- any sequence of StartTask, RecoverTask, StopTask, DestroyTask, InspectTask, WaitTask and
  -- SetConfig are ones that the table of tasks and units serves. A StartTask or RecoverTask that is granted adds
  -- the task of its configuration or handle, on a unit that no task has, unless it recovers a task
  -- that is there; a DestroyTask that is granted removes its task, and is refused only for an unknown
  -- task or without force; InspectTask and WaitTask are granted exactly for the tasks that are there,
  -- StopTask for no others; and no other call, nor one that is refused, changes the table.
  pub Run-Serves :
      (ms : ℕ → Manager) {es : List (Call × Bool)} {e : Driver}
      → Run (new_driver ms) es e
      → Serves es (units_of e)
  Run-Serves ms idle = empty (new_driver-untracked ms)
  Run-Serves ms (calls {es} {e} c w r) =
      granted c (perform c e w).0 (Run-Serves ms r) (perform-Allows c e w (Run-Owned ms r))
  Run-Serves ms (polls {es} {e} id th w r t) =
      unchanged (Run-Serves ms r) (poll_task-Keeps id th e w t)
  Run-Serves ms (manages k m r s) = unchanged (Run-Serves ms r) (λ i. refl)
