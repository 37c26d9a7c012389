-- ===== src/Driver/Overlap/Exclusive.antt =====
-- plugin/task.go: no unit has two tasks, however the RPCs on different tasks overlap.
use nomad_driver_systemd.Prelude.{
  ℕ, String, none, some, [], ◌≡◌, ◌⊎◌, inl, inr, arith, eq_iff, text-cases,
}
use nomad_driver_systemd.Prelude.Map.{lookup, insert, lookup-insert, lookup-delete}
use nomad_driver_systemd.Manager.{Manager}
use nomad_driver_systemd.Handler.{Handler}
use nomad_driver_systemd.Driver.{Driver, new_driver}
use nomad_driver_systemd.Driver.Overlap.{
  holding, Calls, store_task, drop_task, Step, enters, returns, claims, gives_up, stores, drops,
  updates, works, Reach, here, next,
}
use nomad_driver_systemd.Driver.Overlap.Held.{
  Held, enters-Held, returns-Held, claims-Held, gives_up-Held,
}

module _ {c : Calls} (v : Held c) where
  stores-Held :
      (id : String) (th : Handler)
      → lookup id c.flight ≡ some (holding th.unit)
      → Held (store_task id th c)
  unfolding store_task
  stores-Held id th f = record {
    owns = λ i x e.
        ground (
          arith,
          lookup-insert id i th c.driver.tasks,
          eq_iff id i,
          v.owns i x,
          v.holds id th.unit,
        );
    holds = λ i u e. ground (arith, lookup-delete id i c.flight, v.holds i u);
    owner = λ u i e. elim (v.owner u i e) [
      | inl (x, t, q) ↦ inl (
        x,
        ground (
          arith,
          lookup-insert id i th c.driver.tasks,
          eq_iff id i,
          v.apart id (holding th.unit),
        ),
        q,
      )
      | inr q ↦ elim (text-cases id i) [
        | inl same ↦
            inl
              (th, ground (arith, lookup-insert id i th c.driver.tasks, eq_iff id i), ground arith)
        | inr differ ↦ inr (ground (arith, lookup-delete id i c.flight))
      ]
    ];
    apart = λ i p e.
        ground
          (arith, lookup-delete id i c.flight, lookup-insert id i th c.driver.tasks, v.apart i p);
  }

  drops-Held :
      (id : String) (th : Handler)
      → lookup id c.flight ≡ none
      → lookup id c.driver.tasks ≡ some th
      → Held (drop_task id th c)
  unfolding drop_task
  drops-Held id th f t = record {
    owns = λ i x e. ground (arith, lookup-delete id i c.driver.tasks, v.owns i x);
    holds = λ i u e. ground (
      arith,
      lookup-insert id i (holding th.unit) c.flight,
      eq_iff id i,
      v.owns id th,
      v.holds i u,
    );
    owner = λ u i e. elim (v.owner u i e) [
      | inl (x, at, q) ↦ elim (text-cases id i) [
        | inl same ↦
            inr (ground (arith, lookup-insert id i (holding th.unit) c.flight, eq_iff id i))
        | inr differ ↦ inl (x, ground (arith, lookup-delete id i c.driver.tasks), q)
      ]
      | inr q ↦ inr (ground (arith, lookup-insert id i (holding th.unit) c.flight, eq_iff id i))
    ];
    apart = λ i p e. ground (
      arith,
      lookup-insert id i (holding th.unit) c.flight,
      lookup-delete id i c.driver.tasks,
      v.apart i p,
    );
  }

  updates-Held :
      (id : String) (th th' : Handler)
      → lookup id c.driver.tasks ≡ some th
      → th'.unit ≡ th.unit
      → Held (record c { driver = record c.driver { tasks = insert id th' c.driver.tasks } })
  updates-Held id th th' t u = record {
    owns = λ i x e.
        ground
          (arith, lookup-insert id i th' c.driver.tasks, eq_iff id i, v.owns i x, v.owns id th);
    holds = v.holds;
    owner = λ w i e. elim (v.owner w i e) [
      | inl (x, at, q) ↦ elim (text-cases id i) [
        | inl same ↦ inl (
          th',
          ground (arith, lookup-insert id i th' c.driver.tasks, eq_iff id i),
          ground (arith, same),
        )
        | inr differ ↦ inl (x, ground (arith, lookup-insert id i th' c.driver.tasks), q)
      ]
      | inr q ↦ inr q
    ];
    apart =
        λ i p e. ground (arith, lookup-insert id i th' c.driver.tasks, eq_iff id i, v.apart i p);
  }

  works-Held :
      (d : Driver)
      → d.tasks ≡ c.driver.tasks
      → d.unit_owners ≡ c.driver.unit_owners
      → Held (record c { driver = d })
  works-Held d t o = record {
    owns = λ i x e. ground (arith, t, o, v.owns i x);
    holds = λ i u e. ground (arith, o, v.holds i u);
    owner = λ u i e. elim (v.owner u i (ground (arith, o))) [
      | inl (x, at, q) ↦ inl (x, ground (arith, t), q)
      | inr q ↦ inr q
    ];
    apart = λ i p e. ground (arith, t, v.apart i p);
  }

Step-Held : {c e : Calls} → Step c e → Held c → Held e
Step-Held (enters id f n) v = enters-Held v id f n
Step-Held (returns id f) v = returns-Held v id f
Step-Held (claims id unit f) v = claims-Held v id unit f
Step-Held (gives_up id unit f) v = gives_up-Held v id unit f
Step-Held (stores id th f) v = stores-Held v id th f
Step-Held (drops id th f t) v = drops-Held v id th f t
Step-Held (updates id th th' t u) v = updates-Held v id th th' t u
Step-Held (works d t o) v = works-Held v d t o

abbrev pub no_calls : (ℕ → Manager) → Calls
no_calls ms = record { driver = new_driver ms; flight = [] }

no_calls-Held : (ms : ℕ → Manager) → Held (no_calls ms)
unfolding new_driver lookup
no_calls-Held ms = record {
  owns = λ id th e. cc;
  holds = λ id u e. cc;
  owner = λ u id e. absurd (cc);
  apart = λ id p e. cc;
}

Reach-Held : (ms : ℕ → Manager) {c : Calls} → Reach (no_calls ms) c → Held c
Reach-Held ms here = no_calls-Held ms
Reach-Held ms (next r s) = Step-Held s (Reach-Held ms r)

-- However the steps of RPCs on different tasks interleave: a unit that a task is tracked on has no
-- other tracked task, and no RPC on another task holds it.
pub Reach-unshared :
    (ms : ℕ → Manager) {c : Calls}
    → Reach (no_calls ms) c
    → (id other : String) (th : Handler) → lookup id c.driver.tasks ≡ some th
    → ((x : Handler) × (lookup other c.driver.tasks ≡ some x) × (x.unit ≡ th.unit))
      ⊎ (lookup other c.flight ≡ some (holding th.unit))
    → other ≡ id
Reach-unshared ms {c} r id other th t (inl (x, at, u)) =
    let v = Reach-Held ms r in ground (arith, v.owns id th, v.owns other x)
Reach-unshared ms {c} r id other th t (inr q) =
    let v = Reach-Held ms r in ground (arith, v.owns id th, v.holds other th.unit)
