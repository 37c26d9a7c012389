-- ===== src/Cgroup/Decimal.antt =====
-- Numbers in cgroup files: what the kernel prints, pkg/systemd/cgroup.go reads back.
use mathlib.Core.List.{reverse, reverse-append, reverse-reverse}
use nomad_driver_systemd.Prelude.{
  ℕ, zero, suc, ◌+◌, ◌-◌, ◌*◌, ◌/◌, ◌%◌, ◌^◌, ◌<◌, true, false, Option, none, some, List, [], ◌∷◌,
  ◌++◌, ltb, if◌then◌else◌, ◌≡◌, refl, sym, subst, ◌∙◌, ap, arith, Bool-cases, All, inl, inr,
}
use nomad_driver_systemd.Cgroup.{
  newline, is_digit, is_space, trim_left, trim_space, parse_digits, parse_uint, parse_cgroup_value,
}

-- The decimal digits of a number; any fuel above the number is enough.
unfoldable pub decimal : ℕ → ℕ → List ℕ
decimal zero n = []
decimal (suc fuel) n =
    let more = decimal fuel (n / 10) ++ (b'0' + n % 10) ∷ [] in
    if ltb n 10 then (b'0' + n) ∷ [] else more

abbrev then_digit : ℕ → Option ℕ → Option ℕ
then_digit c none = none
then_digit c (some n) = parse_digits n (c ∷ [])

parse_digits-append :
    (n : ℕ) (cs : List ℕ) (c : ℕ) → parse_digits n (cs ++ c ∷ []) ≡ then_digit c (parse_digits n cs)
unfolding parse_digits
parse_digits-append n [] c = refl
parse_digits-append n (d ∷ cs) c = ground (arith, parse_digits-append (n * 10 + (d - b'0')) cs c)

-- Of a number with several digits, the last digit comes off.
decimal-last :
    (fuel n : ℕ)
    → ltb n 10 ≡ false
    → decimal (suc fuel) n ≡ decimal fuel (n / 10) ++ (b'0' + n % 10) ∷ []
unfolding decimal
decimal-last fuel n h = rw h refl

decimal-one : (fuel n : ℕ) → ltb n 10 ≡ true → decimal (suc fuel) n ≡ (b'0' + n) ∷ []
unfolding decimal
decimal-one fuel n h = rw h refl

parse_one : (n : ℕ) → n < 10 → parse_digits 0 ((b'0' + n) ∷ []) ≡ some n
unfolding parse_digits
parse_one n h = ground arith

parse_last :
    (n : ℕ)
    → then_digit (b'0' + n % 10) (if ltb (n / 10) (2 ^ 64) then some (n / 10) else none)
      ≡ (if ltb n (2 ^ 64) then some n else none)
unfolding parse_digits
parse_last n = ground arith

parse_digits-decimal :
    (fuel n : ℕ)
    → n < fuel
    → parse_digits 0 (decimal fuel n) ≡ (if ltb n (2 ^ 64) then some n else none)
parse_digits-decimal zero n h = absurd (omega arith)
parse_digits-decimal (suc fuel) n h = elim (Bool-cases (ltb n 10)) [
  | inl s ↦ rw (decimal-one fuel n s) (ground (arith, parse_one n))
  | inr l ↦ rw (decimal-last fuel n l) (
      rw parse_digits-append
        (rw (parse_digits-decimal fuel (n / 10) (ground arith)) (parse_last n)))
]

abbrev Digits : List ℕ → Type 0
Digits cs = All (λ c. is_digit c ≡ true) cs

Digits-append : (xs ys : List ℕ) → Digits xs → Digits ys → Digits (xs ++ ys)
Digits-append [] ys p q = q
Digits-append (x ∷ xs) ys p q = (p.0, Digits-append xs ys p.1 q)

decimal-Digits : (fuel n : ℕ) → Digits (decimal fuel n)
decimal-Digits zero n = unfold decimal in tt
decimal-Digits (suc fuel) n = elim (Bool-cases (ltb n 10)) [
  | inl s ↦ rw (decimal-one fuel n s) (ground arith, tt)
  | inr l ↦
      rw (decimal-last fuel n l)
        (Digits-append (decimal fuel (n / 10)) _ (decimal-Digits fuel (n / 10)) (ground arith, tt))
]

trim_left-Digits : (c : ℕ) (cs : List ℕ) → is_digit c ≡ true → trim_left (c ∷ cs) ≡ c ∷ cs
unfolding trim_left is_space
trim_left-Digits c cs h = ground arith

trim_left-newline : (cs : List ℕ) → trim_left (newline ∷ cs) ≡ trim_left cs
unfolding trim_left is_space
trim_left-newline cs = refl

trim_left-first :
    (front : List ℕ) (c : ℕ) (rest : List ℕ)
    → Digits (front ++ c ∷ [])
    → trim_left ((front ++ c ∷ []) ++ rest) ≡ (front ++ c ∷ []) ++ rest
trim_left-first [] c rest d = trim_left-Digits c rest d.0
trim_left-first (x ∷ front) c rest d = trim_left-Digits x _ d.0

last-Digit : (front : List ℕ) (c : ℕ) → Digits (front ++ c ∷ []) → is_digit c ≡ true
last-Digit [] c d = d.0
last-Digit (x ∷ front) c d = last-Digit front c d.1

-- A text of digits loses only its final newline.
trim_space-Digits :
    (front : List ℕ) (c : ℕ)
    → Digits (front ++ c ∷ [])
    → trim_space ((front ++ c ∷ []) ++ newline ∷ []) ≡ front ++ c ∷ []
unfolding trim_space
trim_space-Digits front c d = rw (trim_left-first front c (newline ∷ []) d) (
    rw (reverse-append (front ++ c ∷ []) (newline ∷ [])) (
      rw (reverse-append front (c ∷ [])) (
        rw trim_left-newline (
          rw (trim_left-Digits c (reverse front) (last-Digit front c d)) (
            reverse-append (c ∷ []) (reverse front)
            ∙ ap (λ xs. xs ++ c ∷ []) (reverse-reverse front))))))

-- The digits of a number end in a last one.
decimal-split :
    (fuel n : ℕ) → n < fuel → (front : List ℕ) × (c : ℕ) × (decimal fuel n ≡ front ++ c ∷ [])
decimal-split zero n h = absurd (omega arith)
decimal-split (suc fuel) n h = elim (Bool-cases (ltb n 10)) [
  | inl s ↦ ([], b'0' + n, decimal-one fuel n s)
  | inr l ↦ (decimal fuel (n / 10), b'0' + n % 10, decimal-last fuel n l)
]

parse_uint-append :
    (front : List ℕ) (c : ℕ) → parse_uint (front ++ c ∷ []) ≡ parse_digits 0 (front ++ c ∷ [])
unfolding parse_uint
parse_uint-append [] c = refl
parse_uint-append (x ∷ front) c = refl

-- A cgroup file that holds a number in decimal and a newline is read back as that number if it fits
-- 64 bits, and is an error otherwise.
pub parse_cgroup_value-decimal :
    (n : ℕ)
    → parse_cgroup_value (decimal (suc n) n ++ newline ∷ [])
      ≡ (if ltb n (2 ^ 64) then some n else none)
unfolding parse_cgroup_value
parse_cgroup_value-decimal n =
    let (front, c, e) = decimal-split (suc n) n (omega arith) in
    let digits : Digits (front ++ c ∷ []) = subst Digits e (decimal-Digits (suc n) n) in
    rw e (
      rw (trim_space-Digits front c digits) (
        parse_uint-append front c
        ∙ ap (parse_digits 0) (sym e)
        ∙ parse_digits-decimal (suc n) n (omega arith)))
