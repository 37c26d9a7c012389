-- ===== src/Handler/Store/Refine.antt =====
-- pkg/task's Store implements an abstract table of handlers.
use nomad_driver_systemd.Prelude.{
  ℕ, String, Bool, true, false, ◌||◌, List, [], ◌∷◌, Option, none, some, ◌≡◌, ◌↔◌, inl, inr, refl,
  sym, arith, ◌∙◌, eq_iff, ◌==◌, ◌=?◌, if◌then◌else◌, Bool-cases,
}
use nomad_driver_systemd.Prelude.Map.{lookup, insert, delete, lookup-insert, lookup-delete}
use nomad_driver_systemd.Handler.Store.{
  Store, Call, sets, deletes, gets, stops, Reply, done, found, stopping, step, run, handlers,
  new_store, set, get, delete_task, stop_all,
}

-- The specification: what is stored under an id, what a call does to it, and what it may return.
abbrev pub Table : Type 0
Table = String → Option ℕ

abbrev pub after : Call → Table → Table
after (sets k h) t id = if k =? id then some h else t id
after (deletes k) t id = if k =? id then none else t id
after (gets k) t id = t id
after stops t id = none

abbrev pub member : ℕ → List ℕ → Bool
member h [] = false
member h (x ∷ xs) = x == h || member h xs

-- Get returns what is stored, and Stop has exactly the stored handlers to stop.
abbrev pub Returns : Call → Table → Reply → Type 0
Returns (sets k h) t done = Unit
Returns (deletes k) t done = Unit
Returns (gets k) t (found o) = o ≡ t k
Returns stops t (stopping hs) = (h : ℕ) → (member h hs ≡ true) ↔ ((id : String) × (t id ≡ some h))
Returns _ t _ = ⊥

abbrev pub Conforms : List Call → Table → List Reply → Type 0
Conforms [] t [] = Unit
Conforms (c ∷ cs) t (r ∷ rs) = Returns c t r × Conforms cs (after c t) rs
Conforms _ t _ = ⊥

-- An id stands once in the representation.
abbrev Unique : Store → Type 0
Unique [] = Unit
Unique ((id, h) ∷ ts) = (lookup id ts ≡ none) × Unique ts

insert-Unique : (k : String) (h : ℕ) (ts : Store) → Unique ts → Unique (insert k h ts)
unfolding insert lookup
insert-Unique k h [] v = (refl, tt)
insert-Unique k h ((id, x) ∷ ts) (n, v) =
    ground (arith, eq_iff id k, eq_iff k id, lookup-insert k id h ts, insert-Unique k h ts v)

delete-Unique : (k : String) (ts : Store) → Unique ts → Unique (delete k ts)
unfolding delete lookup
delete-Unique k [] v = tt
delete-Unique k ((id, x) ∷ ts) (n, v) =
    ground (arith, eq_iff id k, eq_iff k id, lookup-delete k id ts, delete-Unique k ts v)

member-handlers :
    (h : ℕ) (ts : Store)
    → Unique ts
    → member h (handlers ts) ≡ true
    → (id : String) × (lookup id ts ≡ some h)
unfolding lookup
member-handlers h [] v m = cc
member-handlers h ((id, x) ∷ ts) (n, v) m = elim (Bool-cases (x == h)) [
  | inl e ↦ (id, ground (arith, eq_iff id id))
  | inr e ↦
      let (other, at) = member-handlers h ts v (ground arith) in
      (other, ground (arith, eq_iff id other))
]

handlers-member :
    (h : ℕ) (id : String) (ts : Store) → lookup id ts ≡ some h → member h (handlers ts) ≡ true
unfolding lookup
handlers-member h id [] e = cc
handlers-member h id ((k, x) ∷ ts) e = ground (arith, handlers-member h id ts)

-- A call on a Store that represents the table returns what the table's owner may expect, and leaves
-- a Store that represents the table after the call.
step-Returns :
    (c : Call) (ts : Store) (t : Table)
    → Unique ts
    → ((id : String) → t id ≡ lookup id ts)
    → Returns c t (step c ts).0
      × Unique (step c ts).1
      × ((id : String) → after c t id ≡ lookup id (step c ts).1)
unfolding step set get delete_task new_store stop_all lookup
step-Returns (sets k h) ts t v same =
    (tt, insert-Unique k h ts v, λ id. ground (arith, same id, lookup-insert k id h ts))
step-Returns (deletes k) ts t v same =
    (tt, delete-Unique k ts v, λ id. ground (arith, same id, lookup-delete k id ts))
step-Returns (gets k) ts t v same = (sym (same k), v, same)
step-Returns stops ts t v same = (
  λ h. (
    λ m. let (id, e) = member-handlers h ts v m in (id, same id ∙ e),
    λ p. handlers-member h p.0 ts (sym (same p.0) ∙ p.1),
  ),
  tt,
  λ id. refl,
)

run-Conforms_from :
    (cs : List Call) (ts : Store) (t : Table)
    → Unique ts
    → ((id : String) → t id ≡ lookup id ts)
    → Conforms cs t (run cs ts).0
unfolding run
run-Conforms_from [] ts t v same = tt
run-Conforms_from (c ∷ cs) ts t v same =
    let (r, v', same') = step-Returns c ts t v same in
    (r, run-Conforms_from cs (step c ts).1 (after c t) v' same')

-- Any sequence of calls on a new Store returns what an empty table of handlers would: Get what was
-- last set and neither deleted nor stopped since, and Stop exactly the handlers that are stored.
pub run-Conforms : (cs : List Call) → Conforms cs (λ id. none) (run cs new_store).0
unfolding new_store lookup
run-Conforms cs = run-Conforms_from cs new_store (λ id. none) tt (λ id. refl)
