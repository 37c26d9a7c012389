-- ===== src/Prelude/Map.antt =====
-- Go maps with text keys, as association lists in which a key stands at most once.
use Prim.Native.String.{String}
use mathlib.Core.Path.{◌≡◌, refl}
use mathlib.Core.Option.{Option, none, some}
use mathlib.Core.List.{List, [], ◌∷◌}
use native.Mathlib.Omega.{arith}
use text.Mathlib.TextEquality.{eq_iff}
use nomad_driver_systemd.Prelude.Tests.{◌=?◌, if◌then◌else◌, =?_self}

abbrev pub Map {ℓ} : Type ℓ → Type ℓ
Map V = List (String × V)

module _ {ℓ} {V : Type ℓ} where
  unfoldable pub lookup : String → Map V → Option V
  lookup _ [] = none
  lookup key ((name, value) ∷ rest) = if name =? key then some value else lookup key rest

  unfoldable pub insert : String → V → Map V → Map V
  insert key new [] = (key, new) ∷ []
  insert key new ((name, value) ∷ rest) =
      if name =? key then (name, new) ∷ rest else (name, value) ∷ insert key new rest

  unfoldable pub delete : String → Map V → Map V
  delete _ [] = []
  delete key ((name, value) ∷ rest) =
      if name =? key then delete key rest else (name, value) ∷ delete key rest

  pub lookup-insert :
      (key other : String) (new : V) (table : Map V)
      → lookup other (insert key new table)
        ≡ (if key =? other then some new else lookup other table)
  unfolding lookup insert
  lookup-insert key other new [] = refl
  lookup-insert key other new ((name, value) ∷ rest) = ground (
    eq_iff name key,
    eq_iff name other,
    eq_iff key other,
    lookup-insert key other new rest,
    arith,
  )

  pub lookup-delete :
      (key other : String) (table : Map V)
      → lookup other (delete key table) ≡ (if key =? other then none else lookup other table)
  unfolding lookup delete
  lookup-delete key other [] = ground arith
  lookup-delete key other ((name, value) ∷ rest) =
      ground
        (eq_iff name key, eq_iff name other, eq_iff key other, lookup-delete key other rest, arith)

  pub lookup-insert_self : (k : String) (v : V) (m : Map V) → lookup k (insert k v m) ≡ some v
  lookup-insert_self k v m = rw (lookup-insert, =?_self k)

  pub lookup-delete_self : (k : String) (m : Map V) → lookup k (delete k m) ≡ none
  lookup-delete_self k m = rw (lookup-delete, =?_self k)

pub ruleset map_laws = (lookup-insert, lookup-delete)
