-- ===== src/Driver/Overlap/Held.antt =====
-- plugin/task.go: who owns a unit while RPCs on different tasks overlap, and the steps that claim and
-- give up.
use nomad_driver_systemd.Prelude.{
  String, none, some, ◌≡◌, ◌⊎◌, inl, inr, arith, eq_iff, text-cases, Option-cases,
}
use nomad_driver_systemd.Prelude.Map.{lookup, insert, delete, lookup-insert, lookup-delete}
use nomad_driver_systemd.Errors.{ok, Result-cases}
use nomad_driver_systemd.Handler.{Handler}
use nomad_driver_systemd.Driver.{claim_unit, release_unit}
use nomad_driver_systemd.Driver.Claims.{claim_unit-ok, claim_unit-err}
use nomad_driver_systemd.Driver.Overlap.{Phase, checked, holding, Calls, claim, give_up}

-- A tracked task owns its unit, an RPC owns the unit that it holds, every owner is one of these, and
-- a task with an RPC in one of these phases is not tracked.
pub record Held (c : Calls) : Type 0 where
  pub owns :
      (id : String) (th : Handler)
      → lookup id c.driver.tasks ≡ some th
      → lookup th.unit c.driver.unit_owners ≡ some id
  pub holds :
      (id unit : String)
      → lookup id c.flight ≡ some (holding unit)
      → lookup unit c.driver.unit_owners ≡ some id
  pub owner :
      (unit id : String)
      → lookup unit c.driver.unit_owners ≡ some id
      → ((th : Handler) × (lookup id c.driver.tasks ≡ some th) × (th.unit ≡ unit))
        ⊎ (lookup id c.flight ≡ some (holding unit))
  pub apart :
      (id : String) (p : Phase) → lookup id c.flight ≡ some p → lookup id c.driver.tasks ≡ none

module _ {c : Calls} (v : Held c) where
  pub enters-Held :
      (id : String)
      → lookup id c.flight ≡ none
      → lookup id c.driver.tasks ≡ none
      → Held (record c { flight = insert id checked c.flight })
  enters-Held id f n = record {
    owns = v.owns;
    holds = λ i u e. ground (arith, lookup-insert id i checked c.flight, v.holds i u);
    owner = λ u i e. elim (v.owner u i e) [
      | inl t ↦ inl t
      | inr q ↦ inr (ground (arith, lookup-insert id i checked c.flight, eq_iff id i))
    ];
    apart = λ i p e. ground (arith, lookup-insert id i checked c.flight, eq_iff id i, v.apart i p);
  }

  pub returns-Held :
      (id : String)
      → lookup id c.flight ≡ some checked
      → Held (record c { flight = delete id c.flight })
  returns-Held id f = record {
    owns = v.owns;
    holds = λ i u e. ground (arith, lookup-delete id i c.flight, v.holds i u);
    owner = λ u i e. elim (v.owner u i e) [
      | inl t ↦ inl t
      | inr q ↦ inr (ground (arith, lookup-delete id i c.flight, eq_iff id i))
    ];
    apart = λ i p e. ground (arith, lookup-delete id i c.flight, v.apart i p);
  }

  -- The claim of a task that has only been looked up succeeds on no unit but a free one.
  claims-free :
      (id unit : String)
      → lookup id c.flight ≡ some checked
      → (claim_unit unit id c.driver).0 ≡ ok tt
      → lookup unit c.driver.unit_owners ≡ none
  unfolding claim_unit
  claims-free id unit f h = elim (Option-cases (lookup unit c.driver.unit_owners)) [
    | inl free ↦ free
    | inr (other, o) ↦ elim (v.owner unit other o) [
      | inl (th, t, u) ↦ absurd (ground (arith, eq_iff other id, v.apart id checked))
      | inr q ↦ absurd (ground (arith, eq_iff other id))
    ]
  ]

  claimed-Held :
      (id unit : String)
      → lookup id c.flight ≡ some checked
      → lookup unit c.driver.unit_owners ≡ none
      → Held (record {
        driver = record c.driver { unit_owners = insert unit id c.driver.unit_owners };
        flight = insert id (holding unit) c.flight;
      })
  claimed-Held id unit f free = record {
    owns = λ i th e. ground (
      arith,
      lookup-insert unit th.unit id c.driver.unit_owners,
      eq_iff unit th.unit,
      v.owns i th,
    );
    holds = λ i u e. ground (
      arith,
      lookup-insert unit u id c.driver.unit_owners,
      lookup-insert id i (holding unit) c.flight,
      eq_iff unit u,
      eq_iff id i,
      v.holds i u,
    );
    owner = λ u i e. elim (text-cases unit u) [
      | inl same ↦ inr (
          ground (
            arith,
            lookup-insert unit u id c.driver.unit_owners,
            lookup-insert id i (holding unit) c.flight,
            eq_iff unit u,
            eq_iff id i,
          ))
      | inr differ ↦
          elim (v.owner u i (ground (arith, lookup-insert unit u id c.driver.unit_owners))) [
            | inl t ↦ inl t
            | inr q ↦ inr (ground (arith, lookup-insert id i (holding unit) c.flight, eq_iff id i))
          ]
    ];
    apart = λ i p e. ground (
      arith,
      lookup-insert id i (holding unit) c.flight,
      eq_iff id i,
      v.apart i p,
      v.apart id checked,
    );
  }

  pub gives_up-Held :
      (id unit : String) → lookup id c.flight ≡ some (holding unit) → Held (give_up id unit c)
  unfolding give_up release_unit
  gives_up-Held id unit f = record {
    owns = λ i th e. ground (
      arith,
      lookup-delete unit th.unit c.driver.unit_owners,
      eq_iff unit th.unit,
      v.owns i th,
      v.holds id unit,
      v.apart id (holding unit),
    );
    holds = λ i u e. ground (
      arith,
      lookup-delete unit u c.driver.unit_owners,
      lookup-delete id i c.flight,
      eq_iff unit u,
      eq_iff id i,
      v.holds i u,
      v.holds id unit,
    );
    owner = λ u i e.
        elim (v.owner u i (ground (arith, lookup-delete unit u c.driver.unit_owners))) [
          | inl t ↦ inl t
          | inr q ↦ inr (
              ground (
                arith,
                lookup-delete unit u c.driver.unit_owners,
                lookup-delete id i c.flight,
                eq_iff unit u,
                eq_iff id i,
              ))
        ];
    apart = λ i p e. ground (arith, lookup-delete id i c.flight, v.apart i p);
  }

  pub claims-Held : (id unit : String) → lookup id c.flight ≡ some checked → Held (claim id unit c)
  unfolding claim
  claims-Held id unit f = elim (Result-cases (claim_unit unit id c.driver).0) [
    | inr (e, q) ↦ rw (q, claim) (rw (claim_unit-err unit id c.driver e q) (returns-Held id f))
    | inl (u, q) ↦
        rw (q, claim)
          (rw (claim_unit-ok unit id c.driver q) (claimed-Held id unit f (claims-free id unit f q)))
  ]
