-- ===== src/Driver/Channels/Rpcs.antt =====
-- plugin/task.go: which units' wake channels StartTask and RecoverTask change.
use nomad_driver_systemd.Prelude.{
  ℕ, String, Bool, true, false, none, ◌≡◌, ◌≢◌, ◌⊎◌, refl, inl, inr, Option-cases,
}
use nomad_driver_systemd.Prelude.Map.{lookup}
use nomad_driver_systemd.Config.{TaskConfig}
use nomad_driver_systemd.Units.{to_task_state, running}
use nomad_driver_systemd.Host.{Host}
use nomad_driver_systemd.Manager.Jobs.{unit_state}
use nomad_driver_systemd.Driver.{Driver, claim_unit, get_manager}
use nomad_driver_systemd.Driver.Tasks.{
  NomadTask, TaskHandle, checked_config, new_task_handle, bring_up, adopt, start_claimed,
  claim_and_start, start_task,
}
use nomad_driver_systemd.Driver.Recovery.{
  recovered_state, recover_start_time, recover_exit, recover_claimed, claim_and_recover,
  recover_task,
}
use nomad_driver_systemd.Errors.{Result, Result-cases, ok, is_ok}
use nomad_driver_systemd.Driver.Channels.{
  Except, Quiet, nothing, only, Except-trans, Quiet-Except, Quiet-refl, claim_unit-Except,
  release_unit-Except, bring_up-Quiet, adopt-Except, launch-Quiet,
}

-- A call that fails changes no channel, and one that succeeds those of one unit.
abbrev pub Touches : {A : Type 0} → Result A → String → Driver → Driver → Type 0
Touches r unit d e = ((is_ok r ≡ false) × Quiet d e) ⊎ ((is_ok r ≡ true) × Except (only unit) d e)

module _ ⦃h : Host⦄ where
  open h use {World}

  start_claimed-Touches :
      (k : ℕ) (cfg : NomadTask) (unit : String) (handle : TaskHandle) (d : Driver) (w : World)
      → let (r, e, _) = start_claimed k cfg unit handle d w in Touches r unit d e
  unfolding start_claimed
  start_claimed-Touches k cfg unit handle d w =
      let (_, d', w') = bring_up k unit d w in
      let up = bring_up-Quiet k unit d w in
      elim (Result-cases (bring_up k unit d w).0) [
        | inr (e, q) ↦ inl (
          rw (q, start_claimed) refl,
          rw (q, start_claimed) (Except-trans nothing up (release_unit-Except nothing unit d')),
        )
        | inl (s, q) ↦
            let (th, d2, w2) = adopt k cfg.id unit running d' w' in
            inr (
              rw (q, start_claimed) refl,
              rw (q, start_claimed)
                  (Except-trans (only unit) (Quiet-Except (only unit) up) (
                    Except-trans (only unit) (adopt-Except k cfg.id unit running d' w')
                      (Quiet-Except (only unit) (launch-Quiet cfg.id th d2 w2)))),
            )
      ]

  claim_and_start-Touches :
      (k : ℕ) (cfg : NomadTask) (tc : TaskConfig) (d : Driver) (w : World)
      → let (r, e, _) = claim_and_start k cfg tc d w in Touches r tc.unit d e
  unfolding claim_and_start
  claim_and_start-Touches k cfg tc d w =
      let d' = (claim_unit tc.unit cfg.id d).1 in
      let claims = λ (f : String → Bool). claim_unit-Except f tc.unit cfg.id d in
      elim (Result-cases (claim_unit tc.unit cfg.id d).0) [
        | inr (e, q) ↦ inl (rw (q, claim_and_start) refl, rw (q, claim_and_start) (claims nothing))
        | inl (u, q) ↦ elim (Result-cases (new_task_handle cfg tc)) [
          | inr (e, p) ↦ inl (
            rw (q, claim_and_start) (rw p refl),
            rw (q, claim_and_start)
                (rw p
                  (Except-trans nothing (claims nothing) (release_unit-Except nothing tc.unit d'))),
          )
          | inl (handle, p) ↦ elim (start_claimed-Touches k cfg tc.unit handle d' w) [
            | inl (f, quiet) ↦ inl (
              rw (q, claim_and_start) (rw p f),
              rw (q, claim_and_start) (rw p (Except-trans nothing (claims nothing) quiet)),
            )
            | inr (f, one) ↦ inr (
              rw (q, claim_and_start) (rw p f),
              rw (q, claim_and_start)
                  (rw p (Except-trans (only tc.unit) (claims (only tc.unit)) one)),
            )
          ]
        ]
      ]

  -- StartTask changes no channel, or those of its configuration's unit.
  pub start_task-Touches :
      (cfg : NomadTask) (d : Driver) (w : World)
      → ((is_ok (start_task cfg d w).0 ≡ false) × Quiet d (start_task cfg d w).1)
        ⊎ ((tc : TaskConfig) × (is_ok (start_task cfg d w).0 ≡ true)
            × (checked_config cfg d ≡ ok tc)
            × Except (only tc.unit) d (start_task cfg d w).1)
  unfolding start_task
  start_task-Touches cfg d w = elim (Option-cases (lookup cfg.id d.tasks)) [
    | inr (th, t) ↦ inl (rw (t, start_task) refl, rw (t, start_task) (Quiet-refl d))
    | inl n ↦ elim (Result-cases (checked_config cfg d)) [
      | inr (e, c) ↦ inl (rw (n, start_task) (rw c refl), rw (n, start_task) (rw c (Quiet-refl d)))
      | inl (tc, c) ↦ elim (Result-cases (get_manager d)) [
        | inr (e, g) ↦
            inl (
              rw (n, start_task) (rw c (rw g refl)),
              rw (n, start_task) (rw c (rw g (Quiet-refl d))),
            )
        | inl (k, g) ↦ elim (claim_and_start-Touches k cfg tc d w) [
          | inl (f, quiet) ↦
              inl (rw (n, start_task) (rw c (rw g f)), rw (n, start_task) (rw c (rw g quiet)))
          | inr (f, one) ↦
              inr (tc, rw (n, start_task) (rw c (rw g f)), c, rw (n, start_task) (rw c (rw g one)))
        ]
      ]
    ]
  ]

  recover_claimed-Touches :
      (k : ℕ) (id unit : String) (d : Driver) (w : World)
      → let (r, e, _) = recover_claimed k id unit d w in Touches r unit d e
  unfolding recover_claimed
  recover_claimed-Touches k id unit d w =
      elim (Result-cases (unit_state (d.managers k) d.ended unit w).0) [
        | inr (e, q) ↦ inl (
          rw (q, recover_claimed) refl,
          rw (q, recover_claimed) (release_unit-Except nothing unit d),
        )
        | inl (s, q) ↦
            let w1 = (unit_state (d.managers k) d.ended unit w).1 in
            let (th, d2, w2) = adopt k id unit (recovered_state (to_task_state s)) d w1 in
            let (th3, w3) = recover_start_time k th d2 w2 in
            let (th4, w4) = recover_exit k s th3 d2 w3 in
            inr (
              rw (q, recover_claimed) refl,
              rw (q, recover_claimed)
                  (Except-trans (only unit)
                    (adopt-Except k id unit (recovered_state (to_task_state s)) d w1)
                    (Quiet-Except (only unit) (launch-Quiet id th4 d2 w4))),
            )
      ]

  claim_and_recover-Touches :
      (k : ℕ) (id unit : String) (d : Driver) (w : World)
      → let (r, e, _) = claim_and_recover k id unit d w in Touches r unit d e
  unfolding claim_and_recover
  claim_and_recover-Touches k id unit d w =
      let d' = (claim_unit unit id d).1 in
      let claims = λ (f : String → Bool). claim_unit-Except f unit id d in
      elim (Result-cases (claim_unit unit id d).0) [
        | inr (e, q) ↦
            inl (rw (q, claim_and_recover) refl, rw (q, claim_and_recover) (claims nothing))
        | inl (u, q) ↦ elim (recover_claimed-Touches k id unit d' w) [
          | inl (f, quiet) ↦ inl (
            rw (q, claim_and_recover) f,
            rw (q, claim_and_recover) (Except-trans nothing (claims nothing) quiet),
          )
          | inr (f, one) ↦ inr (
            rw (q, claim_and_recover) f,
            rw (q, claim_and_recover) (Except-trans (only unit) (claims (only unit)) one),
          )
        ]
      ]

  -- RecoverTask changes no channel, or those of its handle's unit.
  pub recover_task-Touches :
      (handle : TaskHandle) (d : Driver) (w : World)
      → (((lookup handle.config.id d.tasks ≢ none) ⊎ (is_ok (recover_task handle d w).0 ≡ false))
          × Quiet d (recover_task handle d w).1)
        ⊎ ((tc : TaskConfig) × (is_ok (recover_task handle d w).0 ≡ true)
            × (h.get_driver_state handle.driver_state ≡ ok tc)
            × Except (only tc.unit) d (recover_task handle d w).1)
  unfolding recover_task
  recover_task-Touches handle d w = elim (Option-cases (lookup handle.config.id d.tasks)) [
    | inr (th, t) ↦ inl (inl (λ n. cc), rw (t, recover_task) (Quiet-refl d))
    | inl n ↦ elim (Result-cases (h.get_driver_state handle.driver_state)) [
      | inr (e, c) ↦
          inl (inr (rw (n, recover_task) (rw c refl)), rw (n, recover_task) (rw c (Quiet-refl d)))
      | inl (tc, c) ↦ elim (Result-cases (get_manager d)) [
        | inr (e, g) ↦ inl (
          inr (rw (n, recover_task) (rw c (rw g refl))),
          rw (n, recover_task) (rw c (rw g (Quiet-refl d))),
        )
        | inl (k, g) ↦ elim (claim_and_recover-Touches k handle.config.id tc.unit d w) [
          | inl (f, quiet) ↦
              inl (
                inr (rw (n, recover_task) (rw c (rw g f))),
                rw (n, recover_task) (rw c (rw g quiet)),
              )
          | inr (f, one) ↦
              inr (
                tc,
                rw (n, recover_task) (rw c (rw g f)),
                c,
                rw (n, recover_task) (rw c (rw g one)),
              )
        ]
      ]
    ]
  ]
