-- ===== src/Config/Names.antt =====
-- What plugin/config.go's Validate accepts, said without a regular expression.
use Prim.Native.String.{len}
use mathlib.Core.List.{Memᴰ}
use nomad_driver_systemd.Prelude.{
  ℕ, ◌≤◌, String, Bool, true, List, [], ◌∷◌, ◌++◌, ◌≡◌, ◌≢◌, refl, ◌↔◌, inl, inr, arith, All, codes,
  eq_iff,
}
use nomad_driver_systemd.Errors.{ok}
use nomad_driver_systemd.Config.{
  TaskConfig, is_name_char, unit_types, literal, one_of, unit_name_pattern, validate,
}
use nomad_driver_systemd.Config.Regex.{
  Re, Matches, match_re_iff, shape, one, seq, alt, plus, eps, empty, nothing, char, both, left,
  right, last, more,
}

-- A nonempty text of the allowed characters, a dot, and a known unit type.
pub record WellNamed (cs : List ℕ) : Type 0 where
  pub stem : List ℕ
  pub kind : String
  pub split : cs ≡ stem ++ (b'.' ∷ codes kind)
  pub nonempty : stem ≢ []
  pub allowed : All (λ c. is_name_char c ≡ true) stem
  pub known : Memᴰ kind unit_types

literal-Matches : (cs xs : List ℕ) → Matches (literal cs) xs → xs ≡ cs
literal-Matches [] xs m = shape m
literal-Matches (c ∷ cs) xs m =
    let (ys, zs, a, b, e) = shape m in
    let (d, h, k) = shape a in ground (arith, literal-Matches cs zs b)

Matches-literal : (cs : List ℕ) → Matches (literal cs) cs
Matches-literal [] = nothing
Matches-literal (c ∷ cs) = both (char (ground arith)) (Matches-literal cs) refl

one_of-Matches :
    (ss : List String) (xs : List ℕ)
    → Matches (one_of ss) xs
    → (s : String) × Memᴰ s ss × (xs ≡ codes s)
one_of-Matches [] xs m = absurd (shape m)
one_of-Matches (s ∷ ss) xs m = elim (shape m) [
  | inl a ↦ (s, Memᴰ.head refl, literal-Matches (codes s) xs a)
  | inr a ↦ let (t, i, e) = one_of-Matches ss xs a in (t, Memᴰ.tail i, e)
]

Matches-one_of : {s : String} (ss : List String) → Memᴰ s ss → Matches (one_of ss) (codes s)
Matches-one_of [] i = elim i [ ]
Matches-one_of (t ∷ ss) (Memᴰ.head e) = rw e (left (Matches-literal (codes t)))
Matches-one_of (t ∷ ss) (Memᴰ.tail i) = right (Matches-one_of ss i)

-- What an expression `plus r` says of a text where `r` is one character of a class.
abbrev Repeats : Re → List ℕ → Type 0
Repeats (plus r) xs = (p : ℕ → Bool) → r ≡ one p → (xs ≢ []) × All (λ c. p c ≡ true) xs
Repeats empty xs = Unit
Repeats eps xs = Unit
Repeats (one p) xs = Unit
Repeats (seq r s) xs = Unit
Repeats (alt r s) xs = Unit

Matches-Repeats : {r : Re} {xs : List ℕ} → Matches r xs → Repeats r xs
Matches-Repeats nothing = tt
Matches-Repeats (char h) = tt
Matches-Repeats (both m n k) = tt
Matches-Repeats (left m) = tt
Matches-Repeats (right m) = tt
Matches-Repeats (last m) = λ p e. let (c, h, k) = shape (rw e at m) in rw k ((λ z. cc), (h, tt))
Matches-Repeats (more {xs = xs} {ys = ys} {zs = zs} m n k) = λ p e.
    let (c, h, j) = shape (rw e at m) in
    let (some_left, all) = Matches-Repeats n p e in
    let whole : zs ≡ c ∷ ys = ground arith in rw whole ((λ z. cc), (h, all))

Matches-plus :
    (p : ℕ → Bool) (xs : List ℕ) → xs ≢ [] → All (λ c. p c ≡ true) xs → Matches (plus (one p)) xs
Matches-plus p [] n a = absurd (n refl)
Matches-plus p (c ∷ []) n a = last (char a.0)
Matches-plus p (c ∷ d ∷ cs) n a = more (char a.0) (Matches-plus p (d ∷ cs) (λ e. cc) a.1) refl

unit_name_pattern_sound : (cs : List ℕ) → Matches unit_name_pattern cs → WellNamed cs
unfolding unit_name_pattern
unit_name_pattern_sound cs m =
    let (stem, rest, a, b, e) = shape m in
    let (dot, tail, c, d, f) = shape b in
    let (x, h, g) = shape c in
    let (kind, i, k) = one_of-Matches unit_types tail d in
    let (ne, al) = Matches-Repeats a is_name_char refl in
    record {
      stem = stem;
      kind = kind;
      split = ground arith;
      nonempty = ne;
      allowed = al;
      known = i;
    }

unit_name_pattern-complete : (cs : List ℕ) → WellNamed cs → Matches unit_name_pattern cs
unfolding unit_name_pattern
unit_name_pattern-complete cs v =
    both (Matches-plus is_name_char v.stem v.nonempty v.allowed)
      (both {xs = b'.' ∷ []} (char refl) (Matches-one_of unit_types v.known) refl) v.split

-- A task configuration is accepted exactly if its unit name is not empty, has at most 255 bytes, and
-- is a nonempty stem of the allowed characters, a dot and a known unit type.
pub validate_iff :
    (tc : TaskConfig)
    → (validate tc ≡ ok tt) ↔ ((tc.unit ≢ "") × (len tc.unit ≤ 255) × WellNamed (codes tc.unit))
unfolding validate
validate_iff tc = (
  λ h. (
    ground (arith, eq_iff tc.unit ""),
    ground arith,
    unit_name_pattern_sound _ ((match_re_iff _ unit_name_pattern).0 (ground arith)),
  ),
  λ v. ground (
    arith,
    eq_iff tc.unit "",
    (match_re_iff (codes tc.unit) unit_name_pattern).1 (unit_name_pattern-complete _ v.2),
  ),
)
