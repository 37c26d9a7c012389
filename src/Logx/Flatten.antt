-- ===== src/Logx/Flatten.antt =====
-- What pkg/logx's flatten hands to hclog, against the leaves of the attributes.
use mathlib.Core.List.{append_assoc, append-nil}
use nomad_driver_systemd.Prelude.{
  String, Bool, true, false, List, [], ◌∷◌, ◌++◌, Option, none, some, ◌≡◌, refl, sym, ap, ◌∙◌,
  Bool-cases, inl, inr, ◌=?◌, if◌then◌else◌,
}
use nomad_driver_systemd.Logx.{
  LogValue, Attr, Attrs, attr, nil, cons, Arg, key, value, append_attrs, append_attr, flatten,
}

abbrev pub Pair : Type 0
Pair = String × Option LogValue

abbrev pub is_empty : Attrs → Bool
is_empty nil = true
is_empty (cons a rest) = false

-- The attributes that are no groups, in depth-first order, those with an empty key included.
mutual
  pub leaves : Attrs → List Pair
  leaves nil = []
  leaves (cons a rest) = leaves_of a ++ leaves rest

  pub leaves_of : Attr → List Pair
  leaves_of (attr k v nil) = (k, v) ∷ []
  leaves_of (attr k v (cons a rest)) = leaves_of a ++ leaves rest

-- Those with a key.
abbrev pub named : List Pair → List Pair
named [] = []
named ((k, v) ∷ rest) = if k =? "" then named rest else (k, v) ∷ named rest

-- Each key before its value.
abbrev pub spread : List Pair → List Arg
spread [] = []
spread ((k, v) ∷ rest) = key k ∷ value v ∷ spread rest

spread-named-append :
    (xs ys : List Pair) → spread (named (xs ++ ys)) ≡ spread (named xs) ++ spread (named ys)
spread-named-append [] ys = refl
spread-named-append ((k, v) ∷ xs) ys = elim (Bool-cases (k =? "")) [
  | inl e ↦ rw e (spread-named-append xs ys)
  | inr e ↦ rw e (ap (λ l. key k ∷ value v ∷ l) (spread-named-append xs ys))
]

-- One round of the loop, and then the rest.
regroup :
    (out : List Arg) (xs ys : List Pair) {out' res : List Arg}
    → out' ≡ out ++ spread (named xs)
    → res ≡ out' ++ spread (named ys)
    → res ≡ out ++ spread (named (xs ++ ys))
regroup out xs ys p q =
    q
    ∙ ap (λ l. l ++ spread (named ys)) p
    ∙ append_assoc out (spread (named xs)) (spread (named ys))
    ∙ ap (λ l. out ++ l) (sym (spread-named-append xs ys))

mutual
  unfolding append_attrs leaves

  append_attrs-leaves :
      (out : List Arg) (attrs : Attrs)
      → append_attrs out attrs ≡ out ++ spread (named (leaves attrs))
  append_attrs-leaves out nil = simp append-nil
  append_attrs-leaves out (cons a rest) =
      regroup out (leaves_of a) (leaves rest) (append_attr-leaves out a)
        (append_attrs-leaves (append_attr out a) rest)

  append_attr-leaves :
      (out : List Arg) (a : Attr) → append_attr out a ≡ out ++ spread (named (leaves_of a))
  append_attr-leaves out (attr k v nil) = elim (Bool-cases (k =? "")) [
    | inl e ↦ rw e (simp append-nil)
    | inr e ↦ rw e refl
  ]
  append_attr-leaves out (attr k v (cons a rest)) =
      regroup out (leaves_of a) (leaves rest) (append_attr-leaves out a)
        (append_attrs-leaves (append_attr out a) rest)

-- The slice that hclog gets is nil only without any attribute; otherwise it has the attributes that
-- are no groups and have a key, in depth-first order, each key before its value, and it is empty,
-- not nil, if there is none.
pub flatten-leaves :
    (attrs : Attrs)
    → flatten attrs ≡ (if is_empty attrs then none else some (spread (named (leaves attrs))))
unfolding flatten
flatten-leaves nil = refl
flatten-leaves (cons a rest) = ap some (append_attrs-leaves [] (cons a rest))
