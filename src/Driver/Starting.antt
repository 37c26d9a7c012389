-- ===== src/Driver/Starting.antt =====
-- StartTask and RecoverTask, plugin/task.go: what they leave behind on every path.
use nomad_driver_systemd.Prelude.{
  ℕ, String, true, false, none, ◌≡◌, refl, ap, ◌⊎◌, inl, inr, arith, Option-cases,
}
use nomad_driver_systemd.Prelude.Map.{lookup}
use nomad_driver_systemd.Errors.{ok, is_ok, Result-cases}
use nomad_driver_systemd.Config.{TaskConfig}
use nomad_driver_systemd.Units.{running}
use nomad_driver_systemd.Host.{Host}
use nomad_driver_systemd.Driver.{Driver, claim_unit, release_unit, get_manager}
use nomad_driver_systemd.Driver.Tasks.{
  NomadTask, TaskHandle, bring_up, adopt, start_claimed, claim_and_start, start_task,
  checked_config, new_task_handle,
}
use nomad_driver_systemd.Driver.Ownership.{
  Owned, Same, Started, Same-refl, Same-Owned, Started-Owned,
}
use nomad_driver_systemd.Driver.Claims.{
  claim_unit-free, claim_unit-ok, claim_unit-err, bring_up-frame, adopt-frame, adopt-Sound,
  launch-frame, Tracked, Released, claimed, Released-Same, Tracked-Started,
}

module _ ⦃h : Host⦄ where
  open h use {World}

  -- What StartTask does once the unit is claimed.
  start_claimed_cases :
      (k : ℕ) (cfg : NomadTask) (unit : String) (handle : TaskHandle) (d : Driver) (w : World)
      → ((is_ok (start_claimed k cfg unit handle d w).0 ≡ false)
          × Released d unit (start_claimed k cfg unit handle d w).1)
        ⊎ (((start_claimed k cfg unit handle d w).0 ≡ ok handle)
            × Tracked d cfg.id unit (start_claimed k cfg unit handle d w).1)
  unfolding start_claimed release_unit
  start_claimed_cases k cfg unit handle d w = elim (Result-cases (bring_up k unit d w).0) [
    | inl (s, q) ↦
        let (_, d', w') = bring_up k unit d w in
        let (th, d2, w2) = adopt k cfg.id unit running d' w' in
        let (f0, f1) = bring_up-frame k unit d w in
        let (gu, gi, g1, g2) = adopt-frame k cfg.id unit running d' w' in
        let (l0, l1) = launch-frame cfg.id th d2 w2 in
        inr (
          rw (q, start_claimed) refl,
          record {
            th = record th { watching = true };
            fits = (gu, gi, adopt-Sound k cfg.id unit d' w');
            tasks = ground (arith, q, l0, g1, f0);
            owners = ground (arith, q, l1, g2, f1);
          },
        )
    | inr (e, q) ↦ inl (
      ground arith,
      record {
        tasks = ground (arith, bring_up-frame k unit d w);
        owners = ground (arith, bring_up-frame k unit d w);
      },
    )
  ]

  -- From the claim on, StartTask either fails and changes no task and no owner, or starts the task.
  claim_and_start_cases :
      (k : ℕ) (cfg : NomadTask) (tc : TaskConfig) (d : Driver) (w : World)
      → Owned d
      → lookup cfg.id d.tasks ≡ none
      → ((is_ok (claim_and_start k cfg tc d w).0 ≡ false) × Same d (claim_and_start k cfg tc d w).1)
        ⊎ ((is_ok (claim_and_start k cfg tc d w).0 ≡ true)
            × Started d cfg.id tc.unit (claim_and_start k cfg tc d w).1)
  unfolding claim_and_start
  claim_and_start_cases k cfg tc d w v n = elim (Result-cases (claim_unit tc.unit cfg.id d).0) [
    | inr (e, q) ↦ inl (
      rw (q, claim_and_start) refl,
      rw (q, claim_and_start) (rw (claim_unit-err tc.unit cfg.id d e q) (Same-refl d)),
    )
    | inl (u, q) ↦
        let free = claim_unit-free tc.unit cfg.id d v n q in
        elim (Result-cases (new_task_handle cfg tc)) [
          | inr (e, p) ↦ inl (
            rw (q, claim_and_start) (rw p refl),
            rw (q, claim_and_start)
                (rw p (
                  rw (claim_unit-ok tc.unit cfg.id d q) (
                    Released-Same cfg.id tc.unit d _ free (record {
                      tasks = unfold release_unit in refl;
                      owners = unfold release_unit in refl;
                    })))),
          )
          | inl (handle, p) ↦
              elim (start_claimed_cases k cfg tc.unit handle (claimed tc.unit cfg.id d) w) [
                | inl (f, r) ↦ inl (
                  rw (q, claim_and_start) (rw p (rw (claim_unit-ok tc.unit cfg.id d q) f)),
                  rw (q, claim_and_start)
                      (rw p (
                        rw (claim_unit-ok tc.unit cfg.id d q)
                          (Released-Same cfg.id tc.unit d _ free r))),
                )
                | inr (f, t) ↦ inr (
                  rw (q, claim_and_start)
                      (rw p (rw (claim_unit-ok tc.unit cfg.id d q) (ap is_ok f))),
                  rw (q, claim_and_start)
                      (rw p (
                        rw (claim_unit-ok tc.unit cfg.id d q)
                          (Tracked-Started cfg.id tc.unit d _ free t))),
                )
              ]
        ]
  ]

  abbrev pub StartOutcome : NomadTask → Driver → World → Type 0
  StartOutcome cfg d w =
      ((is_ok (start_task cfg d w).0 ≡ false) × Same d (start_task cfg d w).1)
      ⊎ ((tc : TaskConfig) × (is_ok (start_task cfg d w).0 ≡ true)
          × (lookup cfg.id d.tasks ≡ none)
          × (checked_config cfg d ≡ ok tc)
          × Started d cfg.id tc.unit (start_task cfg d w).1)

  -- StartTask on a driver where tasks and owners agree: it fails, and every task and every owner is
  -- as before; or the task was new, its configuration valid and permitted and its unit free, and now
  -- the task is tracked on that unit, is its owner, and nothing else has changed.
  pub start_task_cases : (cfg : NomadTask) (d : Driver) (w : World) → Owned d → StartOutcome cfg d w
  unfolding start_task
  start_task_cases cfg d w v = elim (Option-cases (lookup cfg.id d.tasks)) [
    | inr (th, t) ↦ inl (rw (t, start_task) refl, rw (t, start_task) (Same-refl d))
    | inl n ↦ elim (Result-cases (checked_config cfg d)) [
      | inr (e, c) ↦ inl (rw (n, start_task) (rw c refl), rw (n, start_task) (rw c (Same-refl d)))
      | inl (tc, c) ↦ elim (Result-cases (get_manager d)) [
        | inr (e, g) ↦
            inl (
              rw (n, start_task) (rw c (rw g refl)),
              rw (n, start_task) (rw c (rw g (Same-refl d))),
            )
        | inl (k, g) ↦ elim (claim_and_start_cases k cfg tc d w v n) [
          | inl (f, same) ↦
              inl (rw (n, start_task) (rw c (rw g f)), rw (n, start_task) (rw c (rw g same)))
          | inr (f, started) ↦ inr (
            tc,
            rw (n, start_task) (rw c (rw g f)),
            n,
            c,
            rw (n, start_task) (rw c (rw g started)),
          )
        ]
      ]
    ]
  ]

  pub start_task-Owned :
      (cfg : NomadTask) (d : Driver) (w : World) → Owned d → Owned (start_task cfg d w).1
  start_task-Owned cfg d w v = elim (start_task_cases cfg d w v) [
    | inl (f, same) ↦ Same-Owned same v
    | inr (tc, f, n, c, started) ↦ Started-Owned started n v
  ]
