-- ===== src/Driver/Overlap/Covers.antt =====
-- plugin/task.go: each RPC is a run of the steps that overlap.
use nomad_driver_systemd.Prelude.{
  ℕ, String, true, none, some, ◌≡◌, refl, sym, ap, subst, ◌∙◌, inl, inr, arith, eq_iff, ◌=?◌,
  if◌then◌else◌, Option-cases,
}
use nomad_driver_systemd.Prelude.Map.{
  Map, lookup, insert, delete, lookup-insert, lookup-insert_self, lookup-delete,
}
use nomad_driver_systemd.Errors.{Error, ok, err, Result-cases}
use nomad_driver_systemd.Config.{TaskConfig}
use nomad_driver_systemd.Units.{running}
use nomad_driver_systemd.Host.{Host}
use nomad_driver_systemd.Manager.Journal.{stream_logs}
use nomad_driver_systemd.Handler.{Handler}
use nomad_driver_systemd.Driver.{Driver, claim_unit, get_manager, store_manager}
use nomad_driver_systemd.Driver.Tasks.{
  NomadTask, TaskHandle, bring_up, adopt, launch, start_claimed, claim_and_start, start_task,
  checked_config, new_task_handle,
}
use nomad_driver_systemd.Driver.Claims.{bring_up-frame, adopt-frame}
use nomad_driver_systemd.Driver.Overlap.{
  Phase, checked, holding, Calls, claim, give_up, store_task, enters, claims, gives_up, stores,
  works, Reach, here, next,
}

abbrev pub calls : Driver → Map Phase → Calls
calls d f = record { driver = d; flight = f }

pub Reach-trans : {c d e : Calls} → Reach c d → Reach d e → Reach c e
Reach-trans r here = r
Reach-trans r (next s t) = next (Reach-trans r s) t

-- A run that ends with no call on the task in flight and all other calls where they were.
abbrev pub Runs : String → Driver → Map Phase → Driver → Type 0
Runs id d f e =
    (g : Map Phase) × Reach (calls d f) (calls e g)
    × ((i : String) → lookup i g ≡ (if id =? i then none else lookup i f))

module _ ⦃h : Host⦄ where
  open h use {World}

  pub launch-Reach :
      (id : String) (th : Handler) (d : Driver) (f : Map Phase) (w : World)
      → lookup id f ≡ some (holding th.unit)
      → Reach (calls d f) (calls (launch id th d w).0 (delete id f))
  unfolding launch store_task
  launch-Reach id th d f w e =
      let (_, m, _) = stream_logs (d.managers th.units) th.unit w in
      next (next here (works (store_manager th.units m d) refl refl))
        (stores id (record th { watching = true }) e)

  start_claimed-Reach :
      (k : ℕ) (cfg : NomadTask) (unit : String) (handle : TaskHandle) (d : Driver) (f : Map Phase)
      (w : World)
      → lookup cfg.id f ≡ some (holding unit)
      → Reach (calls d f) (calls (start_claimed k cfg unit handle d w).1 (delete cfg.id f))
  unfolding start_claimed give_up
  start_claimed-Reach k cfg unit handle d f w e =
      let (_, d', w') = bring_up k unit d w in
      let (t, o) = bring_up-frame k unit d w in
      let up : Reach (calls d f) (calls d' f) = next here (works d' t o) in
      elim (Result-cases (bring_up k unit d w).0) [
        | inr (x, q) ↦ rw (q, start_claimed) (next up (gives_up cfg.id unit e))
        | inl (s, q) ↦
            let (th, d2, w2) = adopt k cfg.id unit running d' w' in
            let (u, _, t2, o2) = adopt-frame k cfg.id unit running d' w' in
            rw (q, start_claimed)
              (Reach-trans (next up (works d2 t2 o2))
                (launch-Reach cfg.id th d2 f w2 (e ∙ ap (λ v. some (holding v)) (sym u))))
      ]

  module _ (id unit : String) (d : Driver) (f : Map Phase) where
    abbrev pub entered : Map Phase
    entered = insert id checked f

    abbrev pub taken : Map Phase
    taken = insert id (holding unit) entered

    claim-taken :
        (claim_unit unit id d).0 ≡ ok tt
        → claim id unit (calls d entered) ≡ calls (claim_unit unit id d).1 taken
    unfolding claim
    claim-taken q = rw (q, claim) refl

    claim-refused :
        {e : Error}
        → (claim_unit unit id d).0 ≡ err e
        → claim id unit (calls d entered) ≡ calls (claim_unit unit id d).1 (delete id entered)
    unfolding claim
    claim-refused q = rw (q, claim) refl

    claims_next :
        lookup id f ≡ none
        → lookup id d.tasks ≡ none
        → Reach (calls d f) (claim id unit (calls d entered))
    claims_next n t =
        next (next here (enters id n t))
          (claims id unit (ground (arith, lookup-insert_self id checked f)))

    pub refused-Runs :
        {e : Error}
        → lookup id f ≡ none
        → lookup id d.tasks ≡ none
        → (claim_unit unit id d).0 ≡ err e
        → Runs id d f (claim_unit unit id d).1
    refused-Runs n t q = (
      delete id entered,
      subst (Reach (calls d f)) (claim-refused q) (claims_next n t),
      λ i. ground (arith, lookup-delete id i entered, lookup-insert id i checked f),
    )

    -- With the unit claimed, what follows is a run that gives the claim up or stores the task.
    pub taken-Runs :
        {e : Driver}
        → lookup id f ≡ none
        → lookup id d.tasks ≡ none
        → (claim_unit unit id d).0 ≡ ok tt
        → Reach (calls (claim_unit unit id d).1 taken) (calls e (delete id taken))
        → Runs id d f e
    taken-Runs n t q r = (
      delete id taken,
      Reach-trans (subst (Reach (calls d f)) (claim-taken q) (claims_next n t)) r,
      λ i. ground (
        arith,
        lookup-delete id i taken,
        lookup-insert id i (holding unit) entered,
        lookup-insert id i checked f,
      ),
    )

  pub idle-Runs : (id : String) (d : Driver) (f : Map Phase) → lookup id f ≡ none → Runs id d f d
  idle-Runs id d f n = (f, here, λ i. ground (arith, eq_iff id i))

  claim_and_start-Runs :
      (k : ℕ) (cfg : NomadTask) (tc : TaskConfig) (d : Driver) (f : Map Phase) (w : World)
      → lookup cfg.id f ≡ none
      → lookup cfg.id d.tasks ≡ none
      → Runs cfg.id d f (claim_and_start k cfg tc d w).1
  unfolding claim_and_start
  claim_and_start-Runs k cfg tc d f w n t = elim (Result-cases (claim_unit tc.unit cfg.id d).0) [
    | inr (e, q) ↦ rw (q, claim_and_start) (refused-Runs cfg.id tc.unit d f n t q)
    | inl (u, q) ↦
        let held = lookup-insert_self cfg.id (holding tc.unit) (insert cfg.id checked f) in
        elim (Result-cases (new_task_handle cfg tc)) [
          | inr (e, p) ↦
              rw (q, claim_and_start)
                (rw p (
                  taken-Runs cfg.id tc.unit d f n t q
                    (unfold give_up in next here (gives_up cfg.id tc.unit held))))
          | inl (handle, p) ↦
              rw (q, claim_and_start)
                (rw p (
                  taken-Runs cfg.id tc.unit d f n t q
                    (start_claimed-Reach k cfg tc.unit handle _ _ w held)))
        ]
  ]

  pub start_task-Runs :
      (cfg : NomadTask) (d : Driver) (f : Map Phase) (w : World)
      → lookup cfg.id f ≡ none
      → Runs cfg.id d f (start_task cfg d w).1
  unfolding start_task
  start_task-Runs cfg d f w n = elim (Option-cases (lookup cfg.id d.tasks)) [
    | inr (th, t) ↦ rw (t, start_task) (idle-Runs cfg.id d f n)
    | inl t ↦ elim (Result-cases (checked_config cfg d)) [
      | inr (e, c) ↦ rw (t, start_task) (rw c (idle-Runs cfg.id d f n))
      | inl (tc, c) ↦ elim (Result-cases (get_manager d)) [
        | inr (e, g) ↦ rw (t, start_task) (rw c (rw g (idle-Runs cfg.id d f n)))
        | inl (k, g) ↦ rw (t, start_task) (rw c (rw g (claim_and_start-Runs k cfg tc d f w n t)))
      ]
    ]
  ]
