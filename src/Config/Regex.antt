-- ===== src/Config/Regex.antt =====
-- The part of Go's regexp syntax that plugin/config.go's pattern uses: what an expression matches,
-- and a matcher by derivatives that decides it.
use nomad_driver_systemd.Prelude.{
  ℕ, Bool, true, false, ◌||◌, ◌&&◌, List, [], ◌∷◌, ◌++◌, ◌≡◌, refl, sym, subst, if_intro, ◌∙◌, ◌↔◌,
  ◌⊎◌, inl, inr, arith, Bool-cases, if◌then◌else◌,
}

pub data Re : Type 0 where
  empty eps : Re
  one : (ℕ → Bool) → Re
  seq alt : Re → Re → Re
  plus : Re → Re

-- The texts that an expression matches.
pub data Matches : Re → List ℕ → Type 0 where
  nothing : Matches eps []
  char : {p : ℕ → Bool} {c : ℕ} → p c ≡ true → Matches (one p) (c ∷ [])
  both :
      {r s : Re} {xs ys zs : List ℕ}
      → Matches r xs
      → Matches s ys
      → zs ≡ xs ++ ys
      → Matches (seq r s) zs
  left : {r s : Re} {xs : List ℕ} → Matches r xs → Matches (alt r s) xs
  right : {r s : Re} {xs : List ℕ} → Matches s xs → Matches (alt r s) xs
  last : {r : Re} {xs : List ℕ} → Matches r xs → Matches (plus r) xs
  more :
      {r : Re} {xs ys zs : List ℕ}
      → Matches r xs
      → Matches (plus r) ys
      → zs ≡ xs ++ ys
      → Matches (plus r) zs

nullable : Re → Bool
nullable empty = false
nullable eps = true
nullable (one p) = false
nullable (seq r s) = nullable r && nullable s
nullable (alt r s) = nullable r || nullable s
nullable (plus r) = nullable r

-- What may follow the character `c`.
deriv : ℕ → Re → Re
unfolding nullable
deriv c empty = empty
deriv c eps = empty
deriv c (one p) = if p c then eps else empty
deriv c (seq r s) = if nullable r then alt (seq (deriv c r) s) (deriv c s) else seq (deriv c r) s
deriv c (alt r s) = alt (deriv c r) (deriv c s)
deriv c (plus r) = alt (deriv c r) (seq (deriv c r) (plus r))

unfoldable pub match_re : Re → List ℕ → Bool
unfolding deriv nullable
match_re r [] = nullable r
match_re r (c ∷ cs) = match_re (deriv c r) cs

nullable_sound : (r : Re) → nullable r ≡ true → Matches r []
unfolding nullable
nullable_sound empty h = cc
nullable_sound eps h = nothing
nullable_sound (one p) h = cc
nullable_sound (seq r s) h =
    both (nullable_sound r (ground arith)) (nullable_sound s (ground arith)) refl
nullable_sound (alt r s) h = elim (Bool-cases (nullable r)) [
  | inl e ↦ left (nullable_sound r e)
  | inr e ↦ right (nullable_sound s (ground arith))
]
nullable_sound (plus r) h = last (nullable_sound r h)

nullable_complete : {r : Re} {xs : List ℕ} → Matches r xs → xs ≡ [] → nullable r ≡ true
unfolding nullable
nullable_complete nothing e = refl
nullable_complete (char h) e = cc
nullable_complete (both {xs = []} m n h) e =
    ground (arith, nullable_complete m refl, nullable_complete n (ground arith))
nullable_complete (both {xs = x ∷ xs} m n h) e = absurd (cc)
nullable_complete (left m) e = ground (arith, nullable_complete m e)
nullable_complete (right m) e = ground (arith, nullable_complete m e)
nullable_complete (last m) e = nullable_complete m e
nullable_complete (more {xs = []} m n h) e = nullable_complete m refl
nullable_complete (more {xs = x ∷ xs} m n h) e = absurd (cc)

-- Inversion, at a variable expression.
abbrev pub Shape : Re → List ℕ → Type 0
Shape empty zs = ⊥
Shape eps zs = zs ≡ []
Shape (one p) zs = (c : ℕ) × (p c ≡ true) × (zs ≡ c ∷ [])
Shape (seq r s) zs = (xs : List ℕ) × (ys : List ℕ) × Matches r xs × Matches s ys × (zs ≡ xs ++ ys)
Shape (alt r s) zs = Matches r zs ⊎ Matches s zs
Shape (plus r) zs =
    Matches r zs
    ⊎ ((xs : List ℕ) × (ys : List ℕ) × Matches r xs × Matches (plus r) ys × (zs ≡ xs ++ ys))

pub shape : {r : Re} {zs : List ℕ} → Matches r zs → Shape r zs
shape nothing = refl
shape (char {c = c} h) = (c, h, refl)
shape (both {xs = xs} {ys = ys} m n e) = (xs, ys, m, n, e)
shape (left m) = inl m
shape (right m) = inr m
shape (last m) = inl m
shape (more {xs = xs} {ys = ys} m n e) = inr (xs, ys, m, n, e)

front :
    (c : ℕ) (r s : Re) (zs : List ℕ)
    → ((xs : List ℕ) → Matches (deriv c r) xs → Matches r (c ∷ xs))
    → Shape (seq (deriv c r) s) zs
    → Matches (seq r s) (c ∷ zs)
front c r s zs ih (xs, ys, a, b, e) = both (ih xs a) b (ground (arith, e))

deriv-sound : (c : ℕ) (r : Re) (zs : List ℕ) → Matches (deriv c r) zs → Matches r (c ∷ zs)
unfolding deriv
deriv-sound c empty zs m = absurd (shape m)
deriv-sound c eps zs m = absurd (shape m)
deriv-sound c (one p) zs m = elim (Bool-cases (p c)) [
  | inl h ↦ rw (shape (rw h at m)) (char h)
  | inr h ↦ absurd (shape (rw h at m))
]
deriv-sound c (seq r s) zs m = elim (Bool-cases (nullable r)) [
  | inl h ↦ elim (shape (rw h at m)) [
    | inl k ↦ front c r s zs (deriv-sound c r) (shape k)
    | inr k ↦ both (nullable_sound r h) (deriv-sound c s zs k) refl
  ]
  | inr h ↦ front c r s zs (deriv-sound c r) (shape (rw h at m))
]
deriv-sound c (alt r s) zs m = elim (shape m) [
  | inl k ↦ left (deriv-sound c r zs k)
  | inr k ↦ right (deriv-sound c s zs k)
]
deriv-sound c (plus r) zs m = elim (shape m) [
  | inl k ↦ last (deriv-sound c r zs k)
  | inr k ↦ let (xs, ys, a, b, e) = shape k in more (deriv-sound c r xs a) b (rw e)
]

hit : (p : ℕ → Bool) (d c : ℕ) → p d ≡ true → d ≡ c → p c ≡ true
hit p d c h e = rw (← e) h

deriv-complete :
    (c : ℕ) {r : Re} {zs : List ℕ} (ws : List ℕ)
    → Matches r zs
    → zs ≡ c ∷ ws
    → Matches (deriv c r) ws
unfolding deriv
deriv-complete c ws nothing e = absurd (cc)
deriv-complete c ws (char {p = p} {c = d} h) e =
    subst (Matches (if p c then eps else empty)) (ground arith) (
      subst (λ b. Matches (if b then eps else empty) []) (sym (hit p d c h (ground arith))) nothing)
deriv-complete c ws (both {r = r} {s = s} {xs = []} {ys = ys} m n k) e =
    rw (nullable_complete m refl) (right (deriv-complete c ws n (sym k ∙ e)))
deriv-complete c ws (both {r = r} {s = s} {xs = x ∷ xs} {ys = ys} m n k) e =
    if_intro (λ q. Matches q ws) (nullable r)
      (left (both (deriv-complete c xs m (ground arith)) n (ground arith)))
      (both (deriv-complete c xs m (ground arith)) n (ground arith))
deriv-complete c ws (left m) e = left (deriv-complete c ws m e)
deriv-complete c ws (right m) e = right (deriv-complete c ws m e)
deriv-complete c ws (last m) e = left (deriv-complete c ws m e)
deriv-complete c ws (more {xs = []} m n k) e = deriv-complete c ws n (sym k ∙ e)
deriv-complete c ws (more {xs = x ∷ xs} {ys = ys} m n k) e =
    right (both (deriv-complete c xs m (ground arith)) n (ground arith))

-- The matcher accepts a text exactly if the expression describes it.
pub match_re_iff : (cs : List ℕ) (r : Re) → (match_re r cs ≡ true) ↔ Matches r cs
unfolding match_re
match_re_iff [] r = (nullable_sound r, λ m. nullable_complete m refl)
match_re_iff (c ∷ cs) r = (
  λ h. deriv-sound c r cs ((match_re_iff cs (deriv c r)).0 h),
  λ m. (match_re_iff cs (deriv c r)).1 (deriv-complete c cs m refl),
)
