-- ===== src/Driver/Recovering.antt =====
-- RecoverTask, plugin/task.go: what it leaves behind on every path.
use nomad_driver_systemd.Prelude.{
  ℕ, String, true, false, none, ◌≡◌, ◌≢◌, refl, ◌∙◌, ◌⊎◌, inl, inr, arith, Option-cases,
}
use nomad_driver_systemd.Prelude.Map.{lookup}
use nomad_driver_systemd.Errors.{ok, is_ok, Result-cases}
use nomad_driver_systemd.Config.{TaskConfig}
use nomad_driver_systemd.Units.{UnitState, to_task_state}
use nomad_driver_systemd.Host.{Host}
use nomad_driver_systemd.Manager.Jobs.{unit_state}
use nomad_driver_systemd.Handler.{Handler, new_handler, set_started_at, set_exit_result}
use nomad_driver_systemd.Handler.Exit.{Sound}
use nomad_driver_systemd.Driver.{Driver, claim_unit, release_unit, get_manager}
use nomad_driver_systemd.Driver.Tasks.{TaskHandle, adopt}
use nomad_driver_systemd.Driver.Ownership.{
  Owned, Same, Started, Same-refl, Same-Owned, Started-Owned,
}
use nomad_driver_systemd.Driver.Recovery.{
  recover_claimed, claim_and_recover, recover_task, recover_exit, recover_start_time,
  recovered_state,
}
use nomad_driver_systemd.Driver.Claims.{
  claim_unit-free, claim_unit-ok, claim_unit-err, Tracked, Released, adopt-frame, launch-frame,
  claimed, Released-Same, Tracked-Started,
}

module _ ⦃h : Host⦄ where
  open h use {World}

  pub recover_start_time-frame :
      (k : ℕ) (th : Handler) (d : Driver) (w : World)
      → ((recover_start_time k th d w).0.unit ≡ th.unit)
        × ((recover_start_time k th d w).0.task_id ≡ th.task_id)
  unfolding recover_start_time set_started_at
  recover_start_time-frame k th d w = ground arith

  pub recover_exit-frame :
      (k : ℕ) (s : UnitState) (th : Handler) (d : Driver) (w : World)
      → ((recover_exit k s th d w).0.unit ≡ th.unit)
        × ((recover_exit k s th d w).0.task_id ≡ th.task_id)
  unfolding recover_exit set_exit_result
  recover_exit-frame k s th d w = ground arith

  -- The handler that is launched is sound, whether the task runs or has exited.
  pub recovered-Sound :
      (k : ℕ) (id unit : String) (s : UnitState) (d d2 : Driver) (w w2 w3 : World)
      → let (th, d', w') = adopt k id unit (recovered_state (to_task_state s)) d w in
        Sound
          (record (recover_exit k s (recover_start_time k th d2 w2).0 d2 w3).0 { watching = true })
  unfolding adopt recover_exit recover_start_time new_handler set_started_at set_exit_result
  recovered-Sound k id unit s d d2 w w2 w3 = ground arith

  recover_claimed_cases :
      (k : ℕ) (id unit : String) (d : Driver) (w : World)
      → ((is_ok (recover_claimed k id unit d w).0 ≡ false)
          × Released d unit (recover_claimed k id unit d w).1)
        ⊎ ((is_ok (recover_claimed k id unit d w).0 ≡ true)
            × Tracked d id unit (recover_claimed k id unit d w).1)
  unfolding recover_claimed release_unit
  recover_claimed_cases k id unit d w =
      elim (Result-cases (unit_state (d.managers k) d.ended unit w).0) [
        | inl (s, q) ↦
            let w1 = (unit_state (d.managers k) d.ended unit w).1 in
            let (th, d2, w2) = adopt k id unit (recovered_state (to_task_state s)) d w1 in
            let (th3, w3) = recover_start_time k th d2 w2 in
            let (th4, w4) = recover_exit k s th3 d2 w3 in
            let (gu, gi, g1, g2) = adopt-frame k id unit (recovered_state (to_task_state s)) d w1 in
            let (l0, l1) = launch-frame id th4 d2 w4 in
            let (a0, a1) = recover_start_time-frame k th d2 w2 in
            let (b0, b1) = recover_exit-frame k s th3 d2 w3 in
            inr (
              rw (q, recover_claimed) refl,
              record {
                th = record th4 { watching = true };
                fits = (b0 ∙ a0 ∙ gu, b1 ∙ a1 ∙ gi, recovered-Sound k id unit s d d2 w1 w2 w3);
                tasks = ground (arith, q, l0, g1);
                owners = ground (arith, q, l1, g2);
              },
            )
        | inr (e, q) ↦ inl (ground arith, record { tasks = ground arith; owners = ground arith })
      ]

  claim_and_recover_cases :
      (k : ℕ) (id unit : String) (d : Driver) (w : World)
      → Owned d
      → lookup id d.tasks ≡ none
      → ((is_ok (claim_and_recover k id unit d w).0 ≡ false)
          × Same d (claim_and_recover k id unit d w).1)
        ⊎ ((is_ok (claim_and_recover k id unit d w).0 ≡ true)
            × Started d id unit (claim_and_recover k id unit d w).1)
  unfolding claim_and_recover
  claim_and_recover_cases k id unit d w v n = elim (Result-cases (claim_unit unit id d).0) [
    | inr (e, q) ↦ inl (
      rw (q, claim_and_recover) refl,
      rw (q, claim_and_recover) (rw (claim_unit-err unit id d e q) (Same-refl d)),
    )
    | inl (u, q) ↦
        let free = claim_unit-free unit id d v n q in
        elim (recover_claimed_cases k id unit (claimed unit id d) w) [
          | inl (f, r) ↦ inl (
            rw (q, claim_and_recover) (rw (claim_unit-ok unit id d q) f),
            rw (q, claim_and_recover)
                (rw (claim_unit-ok unit id d q) (Released-Same id unit d _ free r)),
          )
          | inr (f, t) ↦ inr (
            rw (q, claim_and_recover) (rw (claim_unit-ok unit id d q) f),
            rw (q, claim_and_recover)
                (rw (claim_unit-ok unit id d q) (Tracked-Started id unit d _ free t)),
          )
        ]
  ]

  abbrev pub RecoverOutcome : TaskHandle → Driver → World → Type 0
  RecoverOutcome handle d w =
      ((lookup handle.config.id d.tasks ≢ none)
        × ((recover_task handle d w).0 ≡ ok tt)
        × ((recover_task handle d w).1 ≡ d))
      ⊎ ((is_ok (recover_task handle d w).0 ≡ false) × Same d (recover_task handle d w).1)
      ⊎ ((tc : TaskConfig) × (is_ok (recover_task handle d w).0 ≡ true)
          × (lookup handle.config.id d.tasks ≡ none)
          × (h.get_driver_state handle.driver_state ≡ ok tc)
          × Started d handle.config.id tc.unit (recover_task handle d w).1)

  -- RecoverTask on a driver where tasks and owners agree: a tracked task is left alone, with success;
  -- it fails, and every task and every owner is as before; or the task is tracked on the unit that
  -- its handle names, is its owner, and nothing else has changed.
  pub recover_task_cases :
      (handle : TaskHandle) (d : Driver) (w : World) → Owned d → RecoverOutcome handle d w
  unfolding recover_task
  recover_task_cases handle d w v = elim (Option-cases (lookup handle.config.id d.tasks)) [
    | inr (th, t) ↦ inl ((λ e. cc), rw (t, recover_task) refl, rw (t, recover_task) refl)
    | inl n ↦ inr (elim (Result-cases (h.get_driver_state handle.driver_state)) [
      | inr (e, c) ↦
          inl (rw (n, recover_task) (rw c refl), rw (n, recover_task) (rw c (Same-refl d)))
      | inl (tc, c) ↦ elim (Result-cases (get_manager d)) [
        | inr (e, g) ↦ inl (
          rw (n, recover_task) (rw c (rw g refl)),
          rw (n, recover_task) (rw c (rw g (Same-refl d))),
        )
        | inl (k, g) ↦ elim (claim_and_recover_cases k handle.config.id tc.unit d w v n) [
          | inl (f, same) ↦
              inl (rw (n, recover_task) (rw c (rw g f)), rw (n, recover_task) (rw c (rw g same)))
          | inr (f, started) ↦ inr (
            tc,
            rw (n, recover_task) (rw c (rw g f)),
            n,
            c,
            rw (n, recover_task) (rw c (rw g started)),
          )
        ]
      ]
    ])
  ]

  pub recover_task-Owned :
      (handle : TaskHandle) (d : Driver) (w : World) → Owned d → Owned (recover_task handle d w).1
  recover_task-Owned handle d w v = elim (recover_task_cases handle d w v) [
    | inl (t, f, same) ↦ rw same v
    | inr o ↦ elim o [
      | inl (f, same) ↦ Same-Owned same v
      | inr (tc, f, n, c, started) ↦ Started-Owned started n v
    ]
  ]
