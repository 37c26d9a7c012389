-- ===== src/Policy.antt =====
-- plugin/unit.go: which units a task may manage. Go's regexp package stands behind `Regexps`, since
-- the patterns come from the configuration: a compiled expression is its pattern, as String() gives.
pub mod Laws
use nomad_driver_systemd.Prelude.{
  String, Bool, true, false, Option, none, some, List, [], ◌∷◌, if◌then◌else◌,
}
use nomad_driver_systemd.Errors.{
  Error, Result, ok, err, wrap, unit_denied, unit_not_allowed, ◌>>=◌, ◌>>◌, wrapped,
}

pub record Regexps : Type 0 where
  pub compile : String → Result (Unit {0})
  pub match_string : String → String → Bool

pub record UnitPolicy : Type 0 where
  pub allowed : List String
  pub denied : List String

module _ (re : Regexps) where
  -- One of the two loops of compileUnitPolicy.
  unfoldable pub compile_patterns : String → List String → Result (List String)
  compile_patterns what [] = ok []
  compile_patterns what (pattern ∷ rest) = do
    wrapped what (re.compile pattern)
    compiled ← compile_patterns what rest
    ok (pattern ∷ compiled)

  unfoldable pub compile_unit_policy : List String → List String → Result UnitPolicy
  compile_unit_policy allowed denied = do
    a ← compile_patterns "compile allowed_units pattern" allowed
    d ← compile_patterns "compile denied_units pattern" denied
    ok (record { allowed = a; denied = d })

  -- The first pattern of a list that matches the unit.
  unfoldable pub first_match : List String → String → Option String
  first_match [] unit = none
  first_match (pattern ∷ rest) unit =
      if re.match_string pattern unit then some pattern else first_match rest unit

  unfoldable pub check_allowed : List String → String → Result (Unit {0})
  unfolding first_match
  check_allowed [] unit = ok tt
  check_allowed (p ∷ ps) unit = elim (first_match (p ∷ ps) unit) [
    | some _ ↦ ok tt
    | none ↦ err (unit_not_allowed unit)
  ]

  unfoldable pub check : UnitPolicy → String → Result (Unit {0})
  unfolding first_match check_allowed
  check p unit = elim (first_match p.denied unit) [
    | some pattern ↦ err (unit_denied unit pattern)
    | none ↦ check_allowed p.allowed unit
  ]
