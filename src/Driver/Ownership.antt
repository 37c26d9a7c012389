-- ===== src/Driver/Ownership.antt =====
-- One owner for each unit: the store of tasks and the map of unit owners of plugin's Driver describe
-- each other after every RPC.
use nomad_driver_systemd.Prelude.{
  String, none, some, ◌≡◌, refl, sym, subst, ◌∙◌, inl, inr, arith, eq_iff, ◌=?◌, if◌then◌else◌,
  text-cases,
}
use nomad_driver_systemd.Prelude.Map.{lookup}
use nomad_driver_systemd.Handler.{Handler}
use nomad_driver_systemd.Handler.Exit.{Sound}
use nomad_driver_systemd.Driver.{Driver}

pub record Owned (d : Driver) : Type 0 where
  pub named : (id : String) (th : Handler) → lookup id d.tasks ≡ some th → th.task_id ≡ id
  pub owns :
      (id : String) (th : Handler)
      → lookup id d.tasks ≡ some th
      → lookup th.unit d.unit_owners ≡ some id
  pub tracked :
      (unit id : String)
      → lookup unit d.unit_owners ≡ some id
      → (th : Handler) × (lookup id d.tasks ≡ some th) × (th.unit ≡ unit)
  pub sound : (id : String) (th : Handler) → lookup id d.tasks ≡ some th → Sound th

-- The tasks and the owners are what they were.
pub record Same (d e : Driver) : Type 0 where
  pub tasks : e.tasks ≡ d.tasks
  pub owners : (u : String) → lookup u e.unit_owners ≡ lookup u d.unit_owners

-- Task `id` has become the owner of `unit`, and is tracked.
pub record Started (d : Driver) (id unit : String) (e : Driver) : Type 0 where
  pub th : Handler
  pub its_unit : th.unit ≡ unit
  pub its_id : th.task_id ≡ id
  pub sound : Sound th
  pub tasks : (i : String) → lookup i e.tasks ≡ (if id =? i then some th else lookup i d.tasks)
  pub owners :
      (u : String)
      → lookup u e.unit_owners ≡ (if unit =? u then some id else lookup u d.unit_owners)
  pub was_free : lookup unit d.unit_owners ≡ none

-- Task `id` is gone, and `unit` has no owner.
pub record Gone (d : Driver) (id unit : String) (e : Driver) : Type 0 where
  pub tasks : (i : String) → lookup i e.tasks ≡ (if id =? i then none else lookup i d.tasks)
  pub owners :
      (u : String) → lookup u e.unit_owners ≡ (if unit =? u then none else lookup u d.unit_owners)

pub Same-Owned : {d e : Driver} → Same d e → Owned d → Owned e
Same-Owned {d} {e} s v = record {
  sound = λ id th h. v.sound id th (ground (arith, s.tasks));
  named = λ id th h. v.named id th (ground (arith, s.tasks));
  owns = λ id th h. s.owners th.unit ∙ v.owns id th (ground (arith, s.tasks));
  tracked = λ unit id h.
      let (th, t, u) = v.tracked unit id (sym (s.owners unit) ∙ h) in
      (th, ground (arith, s.tasks), u);
}

pub Started-Owned :
    {d e : Driver} {id unit : String}
    → Started d id unit e
    → lookup id d.tasks ≡ none
    → Owned d
    → Owned e
Started-Owned {d} {e} {id} {unit} s n v = record {
  sound = λ i th h. elim (text-cases id i) [
    | inl same ↦ subst Sound (ground (arith, s.tasks i, eq_iff id i)) s.sound
    | inr differ ↦ v.sound i th (ground (arith, s.tasks i))
  ];
  named = λ i th h. ground (arith, s.tasks i, s.its_id, eq_iff id i, v.named i th);
  owns = λ i th h. ground (
    arith,
    s.tasks i,
    s.owners th.unit,
    s.its_unit,
    eq_iff id i,
    eq_iff unit th.unit,
    v.owns i th,
    s.was_free,
  );
  tracked = λ u i h. elim (text-cases unit u) [
    | inl same ↦ (
      s.th,
      ground (arith, s.tasks i, s.owners u, eq_iff unit u, eq_iff id i),
      ground (arith, s.its_unit, same),
    )
    | inr differ ↦
        let (th, t, e) = v.tracked u i (ground (arith, s.owners u)) in
        (th, ground (arith, s.tasks i, eq_iff id i), e)
  ];
}

pub Gone-Owned :
    {d e : Driver} {id : String} {th : Handler}
    → Gone d id th.unit e
    → lookup id d.tasks ≡ some th
    → Owned d
    → Owned e
Gone-Owned {d} {e} {id} {th = old} g n v = record {
  sound = λ i th h. v.sound i th (ground (arith, g.tasks i));
  named = λ i th h. ground (arith, g.tasks i, v.named i th);
  owns = λ i th h. ground (
    arith,
    g.tasks i,
    g.owners th.unit,
    eq_iff id i,
    eq_iff old.unit th.unit,
    v.owns i th,
    v.owns id old,
  );
  tracked = λ u i h.
      let (th, t, e) = v.tracked u i (ground (arith, g.owners u)) in
      (th, ground (arith, g.tasks i, g.owners u, eq_iff id i, eq_iff old.unit u), e);
}

pub Same-refl : (d : Driver) → Same d d
Same-refl d = record { tasks = refl; owners = λ u. refl }
