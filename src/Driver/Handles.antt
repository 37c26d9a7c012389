-- ===== src/Driver/Handles.antt =====
-- plugin/task.go: the handles of tracked tasks, from StartTask and over restarts of the plugin.
use nomad_driver_systemd.Prelude.{
  ℕ, String, none, some, ◌≡◌, ◌≢◌, inl, inr, arith, eq_iff, Option-cases,
}
use nomad_driver_systemd.Prelude.Map.{lookup, lookup-insert}
use nomad_driver_systemd.Errors.{ok, Result-cases}
use nomad_driver_systemd.Config.{TaskConfig}
use nomad_driver_systemd.Host.{Host}
use nomad_driver_systemd.Manager.{Manager}
use nomad_driver_systemd.Handler.{Handler, poll_round}
use nomad_driver_systemd.Handler.Observe.{poll_round-Sections}
use nomad_driver_systemd.Driver.{Driver, new_driver, claim_unit, get_manager}
use nomad_driver_systemd.Driver.Tasks.{
  NomadTask, TaskHandle, checked_config, new_task_handle, start_claimed, claim_and_start,
  start_task,
}
use nomad_driver_systemd.Driver.Recovery.{recover_task}
use nomad_driver_systemd.Driver.Ownership.{Owned, Started}
use nomad_driver_systemd.Driver.Starting.{start_task_cases, start_task-Owned}
use nomad_driver_systemd.Driver.Recovering.{recover_task_cases, recover_task-Owned}
use nomad_driver_systemd.Driver.Stopping.{stop_task-Frame, destroy_task_cases}
use nomad_driver_systemd.Driver.Steps.{
  Step, Reach, here, starts_task, recovers_task, stops_task, destroys_task, sets_config, polls_task,
  manages, poll_task, Sections-frame, set_config-Same, Step-Owned, Reach-Owned,
}

module _ ⦃h : Host⦄ where
  open h use {World}

  -- What the decoding of a task handle promises: it inverts the encoding.
  abbrev pub Codec : Type 0
  Codec =
      (tc : TaskConfig) (state : String)
      → h.set_driver_state tc ≡ ok state
      → h.get_driver_state state ≡ ok tc

  Started-unit :
      {d e : Driver} {id unit : String} (i : String) (a b : Handler)
      → Started d id unit e
      → lookup id d.tasks ≡ none
      → lookup i d.tasks ≡ some a
      → lookup i e.tasks ≡ some b
      → b.unit ≡ a.unit
  Started-unit {id = id} i a b s n p q = ground (arith, s.tasks i, eq_iff id i)

  -- No step moves a tracked task to another unit.
  pub Step-unit :
      {d e : Driver} (i : String) (a b : Handler)
      → Owned d
      → Step d e
      → lookup i d.tasks ≡ some a
      → lookup i e.tasks ≡ some b
      → b.unit ≡ a.unit
  unfolding poll_task
  Step-unit {d} i a b v (starts_task cfg w) p q = elim (start_task_cases cfg d w v) [
    | inl (f, same) ↦ ground (arith, same.tasks)
    | inr (tc, f, n, c, s) ↦ Started-unit i a b s n p q
  ]
  Step-unit {d} i a b v (recovers_task handle w) p q = elim (recover_task_cases handle d w v) [
    | inl (t, f, same) ↦ ground (arith, same)
    | inr o ↦ elim o [
      | inl (f, same) ↦ ground (arith, same.tasks)
      | inr (tc, f, n, c, s) ↦ Started-unit i a b s n p q
    ]
  ]
  Step-unit {d} i a b v (stops_task id timeout race w) p q =
      ground (arith, (stop_task-Frame id timeout race d w).tasks)
  Step-unit {d} i a b v (destroys_task id force race w) p q =
      elim (destroy_task_cases id force race d w) [
        | inl (n, same) ↦ ground (arith, same)
        | inr (th, t, o) ↦ elim o [
          | inl (x, f, r, same, _) ↦ ground (arith, same)
          | inr (c, r, gone, _) ↦ ground (arith, gone.tasks i, eq_iff id i)
        ]
      ]
  Step-unit {d} i a b v (sets_config setup w) p q =
      ground (arith, (set_config-Same setup d w).tasks)
  Step-unit {d} i a b v (polls_task id th w t) p q =
      let th' = (poll_round (d.managers th.units) th w).0 in
      let (u, _) = Sections-frame (poll_round-Sections (d.managers th.units) th w) in
      ground (arith, lookup-insert id i th' d.tasks, eq_iff id i)
  Step-unit {d} i a b v (manages k m s) p q = ground arith

  pub start_claimed-handle :
      (k : ℕ) (cfg : NomadTask) (unit : String) (made handle : TaskHandle) (d : Driver) (w : World)
      → (start_claimed k cfg unit made d w).0 ≡ ok handle
      → handle ≡ made
  unfolding start_claimed
  start_claimed-handle k cfg unit made handle d w o = ground arith

  claim_and_start-handle :
      (k : ℕ) (cfg : NomadTask) (tc : TaskConfig) (handle : TaskHandle) (d : Driver) (w : World)
      → (claim_and_start k cfg tc d w).0 ≡ ok handle
      → new_task_handle cfg tc ≡ ok handle
  unfolding claim_and_start
  claim_and_start-handle k cfg tc handle d w o =
      elim (Result-cases (claim_unit tc.unit cfg.id d).0) [
        | inr (e, q) ↦ absurd (ground arith)
        | inl (u, q) ↦ elim (Result-cases (new_task_handle cfg tc)) [
          | inr (e, p) ↦ absurd (ground arith)
          | inl (made, p) ↦ ground (
            arith,
            start_claimed-handle k cfg tc.unit made handle (claim_unit tc.unit cfg.id d).1 w,
          )
        ]
      ]

  start_task-handle :
      (cfg : NomadTask) (d : Driver) (w : World) (handle : TaskHandle) (tc : TaskConfig)
      → checked_config cfg d ≡ ok tc
      → (start_task cfg d w).0 ≡ ok handle
      → new_task_handle cfg tc ≡ ok handle
  unfolding start_task
  start_task-handle cfg d w handle tc c o = elim (Option-cases (lookup cfg.id d.tasks)) [
    | inr (th, t) ↦ absurd (ground arith)
    | inl n ↦ elim (Result-cases (get_manager d)) [
      | inr (e, g) ↦ absurd (ground arith)
      | inl (k, g) ↦ ground (arith, claim_and_start-handle k cfg tc handle d w)
    ]
  ]

  -- What a handle says of a Driver: its task is tracked, on the unit of the configuration in it.
  pub record Names (handle : TaskHandle) (d : Driver) : Type 0 where
    pub tc : TaskConfig
    pub th : Handler
    pub decodes : h.get_driver_state handle.driver_state ≡ ok tc
    pub tracked : lookup handle.config.id d.tasks ≡ some th
    pub on : th.unit ≡ tc.unit

  new_task_handle-Names :
      (cfg : NomadTask) (tc : TaskConfig) (handle : TaskHandle)
      → Codec
      → new_task_handle cfg tc ≡ ok handle
      → (handle.config ≡ cfg) × (h.get_driver_state handle.driver_state ≡ ok tc)
  unfolding new_task_handle
  new_task_handle-Names cfg tc handle codec e = elim (Result-cases (h.set_driver_state tc)) [
    | inr (x, q) ↦ absurd (ground arith)
    | inl (state, q) ↦ (ground arith, ground (arith, codec tc state q))
  ]

  mutual
    -- The handles of tasks that a Driver tracks: StartTask has returned one, or it has been
    -- recovered by a later Driver, and the task has been tracked ever since.
    pub data Held : TaskHandle → Driver → Type 0 where
      issued :
          {handle : TaskHandle} {d : Driver} (ms : ℕ → Manager) (cfg : NomadTask) (w : World)
          → Reach (new_driver ms) d
          → (start_task cfg d w).0 ≡ ok handle
          → Held handle (start_task cfg d w).1
      kept :
          {handle : TaskHandle} {d e : Driver} (th : Handler)
          → Held handle d
          → Step d e
          → lookup handle.config.id e.tasks ≡ some th
          → Held handle e
      passed_on :
          {handle : TaskHandle} {d e : Driver} (w : World)
          → Held handle d
          → Restored d e
          → (recover_task handle e w).0 ≡ ok tt
          → Held handle (recover_task handle e w).1

    -- The Drivers of a later process: they recover tasks of `d`, and take any steps that add no
    -- task.
    pub data Restored : Driver → Driver → Type 0 where
      fresh : {d : Driver} (ms : ℕ → Manager) → Restored d (new_driver ms)
      recovers :
          {d e : Driver} (handle : TaskHandle) (w : World)
          → Restored d e
          → Held handle d
          → Restored d (recover_task handle e w).1
      goes_on :
          {d e f : Driver}
          → Restored d e
          → Step e f
          → ((id : String) → lookup id f.tasks ≢ none → lookup id e.tasks ≢ none)
          → Restored d f

  pub Restored-Owned : {d e : Driver} → Restored d e → Owned e
  Restored-Owned (fresh ms) = Reach-Owned ms here
  Restored-Owned (recovers {e} handle w r l) = recover_task-Owned handle e w (Restored-Owned r)
  Restored-Owned (goes_on r s keep) = Step-Owned s (Restored-Owned r)

  pub Held-Owned : {handle : TaskHandle} {d : Driver} → Held handle d → Owned d
  Held-Owned (issued {d} ms cfg w r o) = start_task-Owned cfg d w (Reach-Owned ms r)
  Held-Owned (kept th l s t) = Step-Owned s (Held-Owned l)
  Held-Owned {handle} (passed_on {d} {e} w l r o) = recover_task-Owned handle e w (Restored-Owned r)

  pub issued-Names :
      (cfg : NomadTask) (d : Driver) (w : World) (handle : TaskHandle)
      → Codec
      → Owned d
      → (start_task cfg d w).0 ≡ ok handle
      → Names handle (start_task cfg d w).1
  issued-Names cfg d w handle codec v o = elim (start_task_cases cfg d w v) [
    | inl (f, same) ↦ absurd (ground arith)
    | inr (tc, f, n, c, s) ↦
        let (its, back) =
          new_task_handle-Names cfg tc handle codec (start_task-handle cfg d w handle tc c o) in
        record {
          tc = tc;
          th = s.th;
          decodes = back;
          tracked = ground (arith, s.tasks cfg.id, eq_iff cfg.id cfg.id);
          on = s.its_unit;
        }
  ]
