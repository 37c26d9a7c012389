-- ===== src/Driver/Works.antt =====
-- plugin/task.go: what the parts of an RPC do to the Managers.
pub mod Rpcs
use nomad_driver_systemd.Prelude.{
  ℕ, String, Bool, true, sym, subst, none, some, ◌≡◌, refl, inl, inr, arith, Bool-cases,
  Option-cases, ◌==◌,
}
use nomad_driver_systemd.Prelude.Int.{ℤ}
use nomad_driver_systemd.Prelude.Map.{lookup, delete}
use nomad_driver_systemd.Errors.{Result-cases}
use nomad_driver_systemd.Config.{TaskConfig}
use nomad_driver_systemd.Units.{TaskState, to_task_state, running, is_running}
use nomad_driver_systemd.Host.{Host}
use nomad_driver_systemd.Manager.{Manager, unregister_unit, register_unit}
use nomad_driver_systemd.Manager.Journal.{stream_logs}
use nomad_driver_systemd.Manager.Jobs.{unit_state, start_unit, stop_unit, kill_unit}
use nomad_driver_systemd.Manager.Steps as Managers
use nomad_driver_systemd.Manager.Sections.{
  Reach-trans, register_unit-Reach, stream_logs-Reach, stop_unit-Reach, kill_unit-Reach,
}
use nomad_driver_systemd.Handler.{Handler, has_exited, stop}
use nomad_driver_systemd.Driver.{Driver, put, store_manager, claim_unit, release_unit, get_manager}
use nomad_driver_systemd.Driver.Tasks.{
  NomadTask, TaskHandle, checked_config, new_task_handle, roll_back_failed_start, bring_up, adopt,
  launch, start_claimed, claim_and_start, start_task, track,
}
use nomad_driver_systemd.Driver.Recovery.{
  recovered_state, recover_start_time, recover_exit, recover_claimed, claim_and_recover,
  recover_task,
}
use nomad_driver_systemd.Driver.Teardown.{
  StopRace, exit_seen, stop_returned, timed_out, no_grace, stop_handler, kill_handler,
  force_kill_task, stop_or_kill, await_stop, stop_task, unregister, forget, destroy_task,
}

-- From d to e: every Manager has only made critical sections, and which one is in use is unchanged.
pub record Works (d e : Driver) : Type 0 where
  pub sections : (k : ℕ) → Managers.Reach (d.managers k) (e.managers k)
  pub in_use : e.systemd_mgr ≡ d.systemd_mgr
  pub made : e.next_manager ≡ d.next_manager

pub Works-refl : (d : Driver) → Works d d
Works-refl d = record { sections = λ k. Managers.here; in_use = refl; made = refl }

pub Works-trans : {d e f : Driver} → Works d e → Works e f → Works d f
Works-trans p q = record {
  sections = λ k. Reach-trans (p.sections k) (q.sections k);
  in_use = ground (arith, p.in_use, q.in_use);
  made = ground (arith, p.made, q.made);
}

-- Other fields may change.
pub Works-same :
    (d e : Driver)
    → e.managers ≡ d.managers
    → e.systemd_mgr ≡ d.systemd_mgr
    → e.next_manager ≡ d.next_manager
    → Works d e
Works-same d e m u n = record { sections = λ k. rw m Managers.here; in_use = u; made = n }

pub store_manager-Works :
    (k : ℕ) (m : Manager) (d : Driver)
    → Managers.Reach (d.managers k) m
    → Works d (store_manager k m d)
store_manager-Works k m d r = record {
  sections = λ j. elim (Bool-cases (j == k)) [
    | inl e ↦
        let s : j ≡ k = ground arith in
        rw e (subst (λ i. Managers.Reach (d.managers i) m) (sym s) r)
    | inr e ↦ rw e Managers.here
  ];
  in_use = refl;
  made = refl;
}

pub claim_unit-Works : (unit id : String) (d : Driver) → Works d (claim_unit unit id d).1
unfolding claim_unit
claim_unit-Works unit id d =
    Works-same d (claim_unit unit id d).1 (ground arith) (ground arith) (ground arith)

pub release_unit-Works : (unit : String) (d : Driver) → Works d (release_unit unit d)
unfolding release_unit
release_unit-Works unit d = Works-same d (release_unit unit d) refl refl refl

pub track-Works : (id : String) (th : Handler) (d : Driver) → Works d (track id th d)
track-Works id th d = Works-same d (track id th d) refl refl refl

module _ ⦃h : Host⦄ where
  open h use {World}

  pub bring_up-Works :
      (k : ℕ) (unit : String) (d : Driver) (w : World) → Works d (bring_up k unit d w).1
  unfolding bring_up roll_back_failed_start
  bring_up-Works k unit d w = elim (Result-cases (unit_state (d.managers k) d.ended unit w).0) [
    | inr (e, q) ↦ rw (q, bring_up) (Works-refl d)
    | inl (s, q) ↦ elim (Bool-cases (is_running (to_task_state s))) [
      | inl r ↦ rw (q, bring_up) (rw r (Works-refl d))
      | inr r ↦
          let w' = (unit_state (d.managers k) d.ended unit w).1 in
          elim (Result-cases (start_unit (d.managers k) d.ended unit w').0) [
            | inl (u, p) ↦ rw (q, bring_up) (rw r (rw p (Works-refl d)))
            | inr (e, p) ↦
                rw (q, bring_up)
                  (rw r (
                    rw p
                      (store_manager-Works k _ d (stop_unit-Reach (d.managers k) d.ended unit _))))
          ]
    ]
  ]

  pub adopt-Works :
      (k : ℕ) (id unit : String) (state : TaskState) (d : Driver) (w : World)
      → Works d (adopt k id unit state d w).1
  unfolding adopt
  adopt-Works k id unit state d w =
      store_manager-Works k _ d (register_unit-Reach d.ended unit (d.managers k) w)

  pub launch-Works :
      (id : String) (th : Handler) (d : Driver) (w : World) → Works d (launch id th d w).0
  unfolding launch
  launch-Works id th d w =
      Works-trans
        (store_manager-Works th.units _ d (stream_logs-Reach (d.managers th.units) th.unit w))
        (track-Works id (record th { watching = true }) _)
