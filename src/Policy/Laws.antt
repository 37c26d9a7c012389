-- ===== src/Policy/Laws.antt =====
-- What plugin/unit.go's policy permits, said of the patterns themselves.
use mathlib.Core.List.{Memᴰ}
use nomad_driver_systemd.Prelude.{
  String, true, false, none, some, List, [], ◌∷◌, ◌≡◌, ◌≢◌, refl, ◌↔◌, ◌⊎◌, inl, inr, arith,
  Bool-cases, Option-cases, All,
}
use nomad_driver_systemd.Errors.{Error, ok, err, unit_denied, unit_not_allowed, Result-cases}
use nomad_driver_systemd.Policy.{
  Regexps, UnitPolicy, compile_patterns, compile_unit_policy, first_match, check_allowed, check,
}

module _ (re : Regexps) where
  -- Some pattern of the list matches the unit; none does.
  abbrev pub Matched : List String → String → Type 0
  Matched ps unit = (p : String) × Memᴰ p ps × (re.match_string p unit ≡ true)

  abbrev pub Unmatched : List String → String → Type 0
  Unmatched ps unit = All (λ p. re.match_string p unit ≡ false) ps

  first_match-none :
      (ps : List String) (unit : String) → (first_match re ps unit ≡ none) ↔ Unmatched ps unit
  unfolding first_match
  first_match-none [] unit = ground arith
  first_match-none (p ∷ ps) unit = ground (arith, first_match-none ps unit)

  first_match-some :
      (ps : List String) (unit p : String)
      → first_match re ps unit ≡ some p
      → Memᴰ p ps × (re.match_string p unit ≡ true)
  unfolding first_match
  first_match-some [] unit p e = cc
  first_match-some (q ∷ ps) unit p e = elim (Bool-cases (re.match_string q unit)) [
    | inl y ↦ (Memᴰ.head (ground arith), ground arith)
    | inr n ↦ let (m, y) = first_match-some ps unit p (ground arith) in (Memᴰ.tail m, y)
  ]

  first_match-Matched :
      (ps : List String) (unit : String) → Matched ps unit → first_match re ps unit ≢ none
  first_match-Matched ps unit (p, m, y) e = absent ps m ((first_match-none ps unit).0 e)
    where
      absent : (qs : List String) → Memᴰ p qs → Unmatched qs unit → ⊥
      absent [] i n = elim i [ ]
      absent (q ∷ qs) (Memᴰ.head s) (n, rest) = ground arith
      absent (q ∷ qs) (Memᴰ.tail m) (n, rest) = absent qs m rest

  check_allowed-ok :
      (ps : List String) (unit : String)
      → (check_allowed re ps unit ≡ ok tt) ↔ ((ps ≡ []) ⊎ Matched ps unit)
  unfolding check_allowed
  check_allowed-ok [] unit = (λ e. inl refl, λ e. refl)
  check_allowed-ok (p ∷ ps) unit = elim (Option-cases (first_match re (p ∷ ps) unit)) [
    | inl n ↦ (
      λ e. absurd (ground arith),
      λ s. absurd (elim s [ inl e ↦ cc | inr m ↦ first_match-Matched (p ∷ ps) unit m n ]),
    )
    | inr (q, s) ↦ (
      λ e. inr (let (m, y) = first_match-some (p ∷ ps) unit q s in (q, m, y)),
      λ h. rw (s, check_allowed),
    )
  ]

  -- A unit is permitted exactly if no denied pattern matches it, and the allowed list is empty or
  -- has a pattern that matches it.
  pub check_iff :
      (p : UnitPolicy) (unit : String)
      → (check re p unit ≡ ok tt)
        ↔ (Unmatched p.denied unit × ((p.allowed ≡ []) ⊎ Matched p.allowed unit))
  unfolding check
  check_iff p unit = elim (Option-cases (first_match re p.denied unit)) [
    | inl n ↦ (
      λ e. (
        (first_match-none p.denied unit).0 n,
        (check_allowed-ok p.allowed unit).0 (ground arith),
      ),
      λ r. rw (n, check) ((check_allowed-ok p.allowed unit).1 r.1),
    )
    | inr (q, s) ↦ (
      λ e. absurd (ground arith),
      λ r. absurd (ground (arith, (first_match-none p.denied unit).1 r.0)),
    )
  ]

  -- The error names a denied pattern that matches the unit; without one, it says that no allowed
  -- pattern matches.
  check_error :
      (p : UnitPolicy) (unit : String) (e : Error)
      → check re p unit ≡ err e
      → ((q : String) × Memᴰ q p.denied
          × (re.match_string q unit ≡ true)
          × (e ≡ unit_denied unit q))
        ⊎ (Unmatched p.denied unit
            × (p.allowed ≢ [])
            × Unmatched p.allowed unit
            × (e ≡ unit_not_allowed unit))
  unfolding check
  check_error p unit e h = elim (Option-cases (first_match re p.denied unit)) [
    | inl n ↦ inr (
        let r = refused p.allowed (ground arith) in
        ((first_match-none p.denied unit).0 n, r.0, r.1, r.2))
    | inr (q, s) ↦ inl (let (m, y) = first_match-some p.denied unit q s in (q, m, y, ground arith))
  ]
    where
      refused :
          (ps : List String)
          → check_allowed re ps unit ≡ err e
          → (ps ≢ []) × Unmatched ps unit × (e ≡ unit_not_allowed unit)
      refused [] k = absurd (cc)
      refused (x ∷ xs) k = elim (Option-cases (first_match re (x ∷ xs) unit)) [
        | inl n ↦ ((λ z. cc), (first_match-none (x ∷ xs) unit).0 n, ground arith)
        | inr (q, s) ↦ absurd (ground arith)
      ]

  compile_patterns-ok :
      (what : String) (ps qs : List String)
      → compile_patterns re what ps ≡ ok qs
      → (qs ≡ ps) × All (λ p. re.compile p ≡ ok tt) ps
  unfolding compile_patterns
  compile_patterns-ok what [] qs h = (ground arith, tt)
  compile_patterns-ok what (p ∷ ps) qs h = elim (Result-cases (re.compile p)) [
    | inr (e, c) ↦ absurd (ground arith)
    | inl (u, c) ↦ elim (Result-cases (compile_patterns re what ps)) [
      | inr (e, d) ↦ absurd (ground arith)
      | inl (rest, d) ↦
          let (same, good) = compile_patterns-ok what ps rest d in (ground arith, (c, good))
    ]
  ]

  compile_patterns-All :
      (what : String) (ps : List String)
      → All (λ p. re.compile p ≡ ok tt) ps
      → compile_patterns re what ps ≡ ok ps
  unfolding compile_patterns
  compile_patterns-All what [] a = refl
  compile_patterns-All what (p ∷ ps) (c, a) = ground (arith, compile_patterns-All what ps a)

  compile_unit_policy-ok :
      (allowed denied : List String) (p : UnitPolicy)
      → compile_unit_policy re allowed denied ≡ ok p
      → (p.allowed ≡ allowed)
        × (p.denied ≡ denied)
        × All (λ s. re.compile s ≡ ok tt) allowed
        × All (λ s. re.compile s ≡ ok tt) denied
  unfolding compile_unit_policy
  compile_unit_policy-ok allowed denied p h =
      elim (Result-cases (compile_patterns re "compile allowed_units pattern" allowed)) [
        | inr (e, c) ↦ absurd (ground arith)
        | inl (a, c) ↦
            elim (Result-cases (compile_patterns re "compile denied_units pattern" denied)) [
              | inr (e, d) ↦ absurd (ground arith)
              | inl (b, d) ↦
                  let x = compile_patterns-ok "compile allowed_units pattern" allowed a c in
                  let y = compile_patterns-ok "compile denied_units pattern" denied b d in
                  (ground arith, ground arith, x.1, y.1)
            ]
      ]

  -- compileUnitPolicy gives a policy exactly if every pattern of both lists compiles, and then it is
  -- the one that holds those lists.
  compile_unit_policy_iff :
      (allowed denied : List String) (p : UnitPolicy)
      → (compile_unit_policy re allowed denied ≡ ok p) ↔ (
          (p.allowed ≡ allowed)
          × (p.denied ≡ denied)
          × All (λ s. re.compile s ≡ ok tt) allowed
          × All (λ s. re.compile s ≡ ok tt) denied)
  unfolding compile_unit_policy
  compile_unit_policy_iff allowed denied p = (
    compile_unit_policy-ok allowed denied p,
    λ (a, b, x, y). ground (
      arith,
      compile_patterns-All "compile allowed_units pattern" allowed x,
      compile_patterns-All "compile denied_units pattern" denied y,
    ),
  )
