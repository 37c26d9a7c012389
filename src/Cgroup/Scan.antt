-- ===== src/Cgroup/Scan.antt =====
-- The scan of pkg/systemd/cgroup.go against its description: the lines of the text, those that parse,
-- in order, up to the first at which the callback stops.
use nomad_driver_systemd.Prelude.{
  ℕ, zero, suc, ◌≤◌, Bool, true, false, none, some, List, [], ◌∷◌, length, ◌==◌, if◌then◌else◌, ◌≡◌,
  refl, arith, Bool-cases, Option-cases, inl, inr,
}
use nomad_driver_systemd.Cgroup.{newline, take_line, parse_line, scan, scan_cgroup_key_value}

abbrev pub onto_first : ℕ → List (List ℕ) → List (List ℕ)
onto_first c [] = (c ∷ []) ∷ []
onto_first c (line ∷ lines) = (c ∷ line) ∷ lines

-- The lines of a text; a newline at its end begins no further line.
unfoldable pub lines : List ℕ → List (List ℕ)
lines [] = []
lines (c ∷ cs) = if c == newline then [] ∷ lines cs else onto_first c (lines cs)

-- The lines that parse.
unfoldable pub entries : List (List ℕ) → List (List ℕ × ℕ)
entries [] = []
entries (line ∷ rest) = elim (parse_line line) [ none ↦ entries rest | some e ↦ e ∷ entries rest ]

module _ {S : Type 0} (fn : List ℕ → ℕ → S → S × Bool) where
  -- The callback over the entries, until it stops.
  unfoldable pub fold_until : List (List ℕ × ℕ) → S → S
  fold_until [] s = s
  fold_until ((key, value) ∷ rest) s =
      let (s', more) = fn key value s in elim more [ true ↦ fold_until rest s' | false ↦ s' ]

lines-take_line :
    (c : ℕ) (cs : List ℕ) → lines (c ∷ cs) ≡ (take_line (c ∷ cs)).0 ∷ lines (take_line (c ∷ cs)).1
unfolding lines take_line
lines-take_line c [] = ground arith
lines-take_line c (d ∷ cs) = ground (arith, lines-take_line d cs)

length-take_line : (c : ℕ) (cs : List ℕ) → length (take_line (c ∷ cs)).1 ≤ length cs
unfolding take_line
length-take_line c [] = ground arith
length-take_line c (d ∷ cs) = ground (arith, length-take_line d cs)

module _ {S : Type 0} (fn : List ℕ → ℕ → S → S × Bool) where
  scan-fold_until :
      (fuel : ℕ) (text : List ℕ) (s : S)
      → length text ≤ fuel
      → scan fn fuel text s ≡ fold_until fn (entries (lines text)) s
  unfolding scan fold_until entries
  scan-fold_until zero [] s le = unfold lines in refl
  scan-fold_until zero (c ∷ cs) s le = absurd (omega arith)
  scan-fold_until (suc fuel) [] s le = unfold lines in refl
  scan-fold_until (suc fuel) (c ∷ cs) s le =
      let line = (take_line (c ∷ cs)).0 in
      let rest = (take_line (c ∷ cs)).1 in
      let bound : length rest ≤ fuel = omega (arith, length-take_line c cs) in
      rw (lines-take_line c cs) (elim (Option-cases (parse_line line)) [
        | inl n ↦ rw (n, scan, entries) (scan-fold_until fuel rest s bound)
        | inr (e, p) ↦ elim (Bool-cases (fn e.0 e.1 s).1) [
          | inl m ↦
              rw (p, scan, entries)
                (rw (m, scan, fold_until) (scan-fold_until fuel rest (fn e.0 e.1 s).0 bound))
          | inr m ↦ rw (p, scan, entries) (rw (m, fold_until) refl)
        ]
      ])

  -- The fuel of the scan is enough: for every text, it is the fold of its callback, until it stops,
  -- over the entries of the lines of the text.
  pub scan_cgroup_key_value-fold_until :
      (text : List ℕ) (s : S)
      → scan_cgroup_key_value fn text s ≡ fold_until fn (entries (lines text)) s
  unfolding scan_cgroup_key_value
  scan_cgroup_key_value-fold_until text s = scan-fold_until (length text) text s (omega arith)
