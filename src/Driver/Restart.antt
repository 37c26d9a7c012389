-- ===== src/Driver/Restart.antt =====
-- plugin/task.go: RecoverTask by a later Driver, of the handles of tasks that an earlier one tracked.
use nomad_driver_systemd.Prelude.{
  ℕ, String, true, some, text-cases, ◌≡◌, ◌∙◌, inl, inr, arith, eq_iff, Option-cases,
}
use nomad_driver_systemd.Prelude.Map.{lookup}
use nomad_driver_systemd.Errors.{ok, is_ok}
use nomad_driver_systemd.Config.{TaskConfig}
use nomad_driver_systemd.Host.{Host}
use nomad_driver_systemd.Manager.Jobs.{unit_state}
use nomad_driver_systemd.Handler.{Handler}
use nomad_driver_systemd.Driver.{Driver, new_driver, claim_unit, get_manager}
use nomad_driver_systemd.Driver.Tasks.{TaskHandle}
use nomad_driver_systemd.Driver.Recovery.{recover_claimed, claim_and_recover, recover_task}
use nomad_driver_systemd.Driver.Ownership.{Owned}
use nomad_driver_systemd.Driver.Handles.{
  Codec, Step-unit, Names, Held, issued, kept, passed_on, Restored, fresh, recovers, goes_on,
  Held-Owned, Restored-Owned, issued-Names,
}
use nomad_driver_systemd.Driver.Claims.{claim_unit-ok}
use nomad_driver_systemd.Driver.Recovering.{recover_task_cases}
use nomad_driver_systemd.Driver.Steps.{Reach-Owned}

module _ ⦃h : Host⦄ where
  open h use {World}

  -- Each task of the later Driver is a task of `d`, on the same unit.
  Within : Driver → Driver → Type 0
  Within d e =
      (id : String) (b : Handler)
      → lookup id e.tasks ≡ some b
      → (a : Handler) × (lookup id d.tasks ≡ some a) × (b.unit ≡ a.unit)

  recover_task-Within :
      (handle : TaskHandle) (d e : Driver) (w : World)
      → Names handle d
      → Owned e
      → Within d e
      → Within d (recover_task handle e w).1
  unfolding Within
  recover_task-Within handle d e w n v into id b t = elim (recover_task_cases handle e w v) [
    | inl (_, f, same) ↦ into id b (ground (arith, same))
    | inr o ↦ elim o [
      | inl (f, same) ↦ into id b (ground (arith, same.tasks))
      | inr (tc, f, m, c, s) ↦ elim (text-cases handle.config.id id) [
        | inl same ↦ (
          n.th,
          ground (arith, n.tracked),
          ground (arith, s.tasks id, eq_iff handle.config.id id, s.its_unit, n.decodes, n.on),
        )
        | inr differ ↦ into id b (ground (arith, s.tasks id, eq_iff handle.config.id id))
      ]
    ]
  ]

  recover_task-tracks :
      (handle : TaskHandle) (e : Driver) (w : World)
      → Owned e
      → (recover_task handle e w).0 ≡ ok tt
      → (b : Handler) × (lookup handle.config.id (recover_task handle e w).1.tasks ≡ some b)
  recover_task-tracks handle e w v o = elim (recover_task_cases handle e w v) [
    | inl (t, f, same) ↦ elim (Option-cases (lookup handle.config.id e.tasks)) [
      | inl n ↦ absurd (t n)
      | inr (b, q) ↦ (b, ground (arith, same))
    ]
    | inr p ↦ elim p [
      | inl (f, same) ↦ absurd (ground arith)
      | inr (tc, f, n, c, s) ↦
          (s.th, ground (arith, s.tasks handle.config.id, eq_iff handle.config.id handle.config.id))
    ]
  ]

  mutual
    unfolding Within new_driver lookup

    Restored-Within : {d e : Driver} → Codec → Restored d e → Within d e
    Restored-Within codec (fresh ms) id b t = absurd (cc)
    Restored-Within {d} codec (recovers {e} handle w r l) id b t =
        recover_task-Within handle d e w (Held-Names codec l) (Restored-Owned r)
          (Restored-Within codec r) id b t
    Restored-Within codec (goes_on {e} {f} r s keep) id b t =
        elim (Option-cases (lookup id e.tasks)) [
          | inl n ↦ absurd (keep id (λ q. cc) n)
          | inr (x, p) ↦
              let (a, t', u) = Restored-Within codec r id x p in
              (a, t', Step-unit id x b (Restored-Owned r) s p t ∙ u)
        ]

    Held-Names : {handle : TaskHandle} {d : Driver} → Codec → Held handle d → Names handle d
    Held-Names {handle} codec (issued {d} ms cfg w r o) =
        issued-Names cfg d w handle codec (Reach-Owned ms r) o
    Held-Names {handle} codec (kept {d} {e} th l s t) =
        let n = Held-Names codec l in
        record {
          tc = n.tc;
          th = th;
          decodes = n.decodes;
          tracked = t;
          on = Step-unit handle.config.id n.th th (Held-Owned l) s n.tracked t ∙ n.on;
        }
    Held-Names {handle} codec (passed_on {d} {e} w l r o) =
        let n = Held-Names codec l in
        let (b, t) = recover_task-tracks handle e w (Restored-Owned r) o in
        let (a, t', u) =
          recover_task-Within handle d e w n (Restored-Owned r) (Restored-Within codec r)
            handle.config.id b t in
        record {
          tc = n.tc;
          th = b;
          decodes = n.decodes;
          tracked = t;
          on = ground (arith, n.tracked, n.on);
        }

  -- The unit of a task of `d` is free on the later Driver, or the task's own.
  claim_unit-restored :
      (handle : TaskHandle) (d e : Driver) (n : Names handle d)
      → Owned d
      → Owned e
      → Within d e
      → (claim_unit n.tc.unit handle.config.id e).0 ≡ ok tt
  unfolding claim_unit Within
  claim_unit-restored handle d e n v v' into =
      elim (Option-cases (lookup n.tc.unit e.unit_owners)) [
        | inl free ↦ ground arith
        | inr (owner, o) ↦
            let (b, t, u) = v'.tracked n.tc.unit owner o in
            let (a, t', u') = into owner b t in
            ground (
              arith,
              eq_iff owner handle.config.id,
              v.owns owner a t',
              v.owns handle.config.id n.th n.tracked,
              n.on,
              u,
              u',
            )
      ]

  recover_claimed-ok :
      (k : ℕ) (id unit : String) (d : Driver) (w : World)
      → is_ok (unit_state (d.managers k) d.ended unit w).0 ≡ true
      → (recover_claimed k id unit d w).0 ≡ ok tt
  unfolding recover_claimed
  recover_claimed-ok k id unit d w a = ground arith

  claim_and_recover-ok :
      (k : ℕ) (id unit : String) (d : Driver) (w : World)
      → (claim_unit unit id d).0 ≡ ok tt
      → is_ok (unit_state (d.managers k) d.ended unit w).0 ≡ true
      → (claim_and_recover k id unit d w).0 ≡ ok tt
  unfolding claim_and_recover
  claim_and_recover-ok k id unit d w c a =
      let same = claim_unit-ok unit id d c in
      ground (arith, recover_claimed-ok k id unit (claim_unit unit id d).1 w)

  recover_task-ok :
      (handle : TaskHandle) (e : Driver) (k : ℕ) (w : World) (tc : TaskConfig)
      → h.get_driver_state handle.driver_state ≡ ok tc
      → e.systemd_mgr ≡ some k
      → (claim_unit tc.unit handle.config.id e).0 ≡ ok tt
      → is_ok (unit_state (e.managers k) e.ended tc.unit w).0 ≡ true
      → (recover_task handle e w).0 ≡ ok tt
  unfolding recover_task get_manager
  recover_task-ok handle e k w tc q g c a =
      ground (arith, claim_and_recover-ok k handle.config.id tc.unit e w c a)

  -- Where the decoding of a handle inverts its encoding: a RecoverTask with the handle of a task that
  -- a Driver tracks since it started it, or recovered it from an earlier Driver, over any number of
  -- restarts; by a Driver of a later process, with a Manager, that so far has recovered any tasks of
  -- the former and has taken any steps that add no task. It succeeds if systemd answers for the task's
  -- unit, whatever the order of the recoveries, and then the task is tracked on the unit that it was
  -- tracked on before.
  pub recover_task-Held :
      {d e : Driver} (handle : TaskHandle) (k : ℕ) (w : World)
      → Codec
      → Held handle d
      → Restored d e
      → e.systemd_mgr ≡ some k
      → ((th : Handler)
          → lookup handle.config.id d.tasks ≡ some th
          → is_ok (unit_state (e.managers k) e.ended th.unit w).0 ≡ true)
      → ((recover_task handle e w).0 ≡ ok tt)
        × ((a b : Handler) × (lookup handle.config.id d.tasks ≡ some a)
            × (lookup handle.config.id (recover_task handle e w).1.tasks ≡ some b)
            × (b.unit ≡ a.unit))
  unfolding Within
  recover_task-Held {d} {e} handle k w codec l r g answers =
      let n = Held-Names codec l in
      let answer : is_ok (unit_state (e.managers k) e.ended n.tc.unit w).0 ≡ true =
        ground (arith, answers n.th n.tracked, n.on) in
      let free =
        claim_unit-restored handle d e n (Held-Owned l) (Restored-Owned r)
          (Restored-Within codec r) in
      let fine = recover_task-ok handle e k w n.tc n.decodes g free answer in
      let (b, t) = recover_task-tracks handle e w (Restored-Owned r) fine in
      let (a, t', u) = Restored-Within codec (recovers handle w r l) handle.config.id b t in
      (fine, (a, b, t', t, u))
