-- ===== src/Driver/Overlap/Rpcs.antt =====
-- plugin/task.go: RecoverTask, StopTask and DestroyTask as runs of the steps that overlap, and what
-- this gives for every RPC.
use nomad_driver_systemd.Prelude.{
  ℕ, String, Bool, none, some, ◌≡◌, refl, sym, ap, ◌∙◌, inl, inr, arith, eq_iff, Option-cases,
  Bool-cases,
}
use nomad_driver_systemd.Prelude.Int.{ℤ}
use nomad_driver_systemd.Prelude.Map.{
  Map, lookup, insert, delete, lookup-insert, lookup-insert_self, lookup-delete,
}
use nomad_driver_systemd.Errors.{Result-cases}
use nomad_driver_systemd.Units.{to_task_state}
use nomad_driver_systemd.Host.{Host}
use nomad_driver_systemd.Manager.Jobs.{unit_state}
use nomad_driver_systemd.Handler.{Handler, has_exited, stop as stop_handler}
use nomad_driver_systemd.Driver.{Driver, claim_unit, get_manager}
use nomad_driver_systemd.Driver.Tasks.{NomadTask, TaskHandle, track, adopt, start_task}
use nomad_driver_systemd.Driver.Recovery.{
  recovered_state, recover_start_time, recover_exit, recover_claimed, claim_and_recover,
  recover_task,
}
use nomad_driver_systemd.Driver.Teardown.{
  StopRace, await_stop, stop_task, unregister, forget, destroy_task,
}
use nomad_driver_systemd.Driver.Claims.{adopt-frame}
use nomad_driver_systemd.Driver.Recovering.{recover_start_time-frame, recover_exit-frame}
use nomad_driver_systemd.Driver.Stopping.{await_stop-Frame, stop_task-Frame}
use nomad_driver_systemd.Driver.Overlap.{
  Phase, checked, holding, give_up, drop_task, gives_up, drops, updates, works, Reach, here, next,
}
use nomad_driver_systemd.Driver.Overlap.Covers.{
  calls, Runs, Reach-trans, launch-Reach, refused-Runs, taken-Runs, idle-Runs, start_task-Runs,
}

module _ ⦃h : Host⦄ where
  open h use {World}

  recover_claimed-Reach :
      (k : ℕ) (id unit : String) (d : Driver) (f : Map Phase) (w : World)
      → lookup id f ≡ some (holding unit)
      → Reach (calls d f) (calls (recover_claimed k id unit d w).1 (delete id f))
  unfolding recover_claimed give_up
  recover_claimed-Reach k id unit d f w e =
      elim (Result-cases (unit_state (d.managers k) d.ended unit w).0) [
        | inr (x, q) ↦ rw (q, recover_claimed) (next here (gives_up id unit e))
        | inl (s, q) ↦
            let w1 = (unit_state (d.managers k) d.ended unit w).1 in
            let (th, d2, w2) = adopt k id unit (recovered_state (to_task_state s)) d w1 in
            let (th3, w3) = recover_start_time k th d2 w2 in
            let (th4, w4) = recover_exit k s th3 d2 w3 in
            let (u, _, t, o) = adopt-frame k id unit (recovered_state (to_task_state s)) d w1 in
            let (a, _) = recover_start_time-frame k th d2 w2 in
            let (b, _) = recover_exit-frame k s th3 d2 w3 in
            rw (q, recover_claimed)
              (Reach-trans (next here (works d2 t o))
                (launch-Reach id th4 d2 f w4 (e ∙ ap (λ v. some (holding v)) (sym (b ∙ a ∙ u)))))
      ]

  claim_and_recover-Runs :
      (k : ℕ) (id unit : String) (d : Driver) (f : Map Phase) (w : World)
      → lookup id f ≡ none
      → lookup id d.tasks ≡ none
      → Runs id d f (claim_and_recover k id unit d w).1
  unfolding claim_and_recover
  claim_and_recover-Runs k id unit d f w n t = elim (Result-cases (claim_unit unit id d).0) [
    | inr (e, q) ↦ rw (q, claim_and_recover) (refused-Runs id unit d f n t q)
    | inl (u, q) ↦
        let held = lookup-insert_self id (holding unit) (insert id checked f) in
        rw (q, claim_and_recover)
          (taken-Runs id unit d f n t q (recover_claimed-Reach k id unit _ _ w held))
  ]

  recover_task-Runs :
      (handle : TaskHandle) (d : Driver) (f : Map Phase) (w : World)
      → lookup handle.config.id f ≡ none
      → Runs handle.config.id d f (recover_task handle d w).1
  unfolding recover_task
  recover_task-Runs handle d f w n =
      let id = handle.config.id in
      elim (Option-cases (lookup handle.config.id d.tasks)) [
        | inr (th, t) ↦ rw (t, recover_task) (idle-Runs id d f n)
        | inl t ↦ elim (Result-cases (h.get_driver_state handle.driver_state)) [
          | inr (e, c) ↦ rw (t, recover_task) (rw c (idle-Runs id d f n))
          | inl (tc, c) ↦ elim (Result-cases (get_manager d)) [
            | inr (e, g) ↦ rw (t, recover_task) (rw c (rw g (idle-Runs id d f n)))
            | inl (k, g) ↦
                rw (t, recover_task)
                  (rw c (rw g (claim_and_recover-Runs k handle.config.id tc.unit d f w n t)))
          ]
        ]
      ]

  stop_task-Runs :
      (id : String) (timeout : ℤ) (race : StopRace) (d : Driver) (f : Map Phase) (w : World)
      → lookup id f ≡ none
      → Runs id d f (stop_task id timeout race d w).1
  stop_task-Runs id timeout race d f w n =
      let s = stop_task-Frame id timeout race d w in
      (
        f,
        next here (works (stop_task id timeout race d w).1 s.tasks s.owners),
        λ i. ground (arith, eq_iff id i),
      )

  unregister-tasks : (unit : String) (d : Driver) → (unregister unit d).tasks ≡ d.tasks
  unfolding unregister
  unregister-tasks unit d = ground arith

  unregister-owners : (unit : String) (d : Driver) → (unregister unit d).unit_owners ≡ d.unit_owners
  unfolding unregister
  unregister-owners unit d = ground arith

  forget-Runs :
      (id : String) (th : Handler) (d : Driver) (f : Map Phase)
      → lookup id f ≡ none
      → lookup id d.tasks ≡ some th
      → Runs id d f (forget id th d)
  unfolding forget drop_task give_up stop_handler
  forget-Runs id th d f n t =
      let g = insert id (holding th.unit) f in
      let e = track id (stop_handler th) d in
      (
        delete id g,
        next
            (next
              (next (next here (updates id th (stop_handler th) t refl)) (
                works (unregister th.unit e) (unregister-tasks th.unit e)
                  (unregister-owners th.unit e)))
              (drops id (stop_handler th) n (
                ap (lookup id) (unregister-tasks th.unit e)
                ∙ lookup-insert_self id (stop_handler th) d.tasks)))
            (gives_up id th.unit (lookup-insert_self id (holding th.unit) f)),
        λ i. ground (arith, lookup-delete id i g, lookup-insert id i (holding th.unit) f),
      )

  destroy_task-Runs :
      (id : String) (force : Bool) (race : StopRace) (d : Driver) (f : Map Phase) (w : World)
      → lookup id f ≡ none
      → Runs id d f (destroy_task id force race d w).1
  unfolding destroy_task
  destroy_task-Runs id force race d f w n = elim (Option-cases (lookup id d.tasks)) [
    | inl t ↦ rw (t, destroy_task) (idle-Runs id d f n)
    | inr (th, t) ↦ elim (Bool-cases (has_exited th)) [
      | inl x ↦ rw (t, destroy_task) (rw x (forget-Runs id th d f n t))
      | inr x ↦ elim (Bool-cases force) [
        | inr o ↦ rw (t, destroy_task) (rw x (rw o (idle-Runs id d f n)))
        | inl o ↦
            let d' = (await_stop race th d w).1 in
            let s = await_stop-Frame race th d w in
            let (g, r, same) = forget-Runs id th d' f n (ap (lookup id) s.tasks ∙ t) in
            rw (t, destroy_task)
              (rw x (rw o (g, Reach-trans (next here (works d' s.tasks s.owners)) r, same)))
      ]
    ]
  ]

  -- The RPCs that change tasks.
  pub data Rpc : Type 0 where
    start : NomadTask → Rpc
    recover : TaskHandle → Rpc
    stop : String → ℤ → StopRace → Rpc
    destroy : String → Bool → StopRace → Rpc

  abbrev pub task_of : Rpc → String
  task_of (start cfg) = cfg.id
  task_of (recover handle) = handle.config.id
  task_of (stop id timeout race) = id
  task_of (destroy id force race) = id

  abbrev pub perform : Rpc → Driver → World → Driver
  perform (start cfg) d w = (start_task cfg d w).1
  perform (recover handle) d w = (recover_task handle d w).1
  perform (stop id timeout race) d w = (stop_task id timeout race d w).1
  perform (destroy id force race) d w = (destroy_task id force race d w).1

  -- Each of these RPCs, with no other call on its task in flight, is on every path a run of the steps
  -- that interleave: what the RPC does to the Driver is what the run does, and afterwards no call on
  -- the task is in flight, and all others are as before.
  pub perform-Runs :
      (r : Rpc) (d : Driver) (f : Map Phase) (w : World)
      → lookup (task_of r) f ≡ none
      → Runs (task_of r) d f (perform r d w)
  perform-Runs (start cfg) d f w n = start_task-Runs cfg d f w n
  perform-Runs (recover handle) d f w n = recover_task-Runs handle d f w n
  perform-Runs (stop id timeout race) d f w n = stop_task-Runs id timeout race d f w n
  perform-Runs (destroy id force race) d f w n = destroy_task-Runs id force race d f w n
