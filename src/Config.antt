-- ===== src/Config.antt =====
-- plugin/config.go: the driver's and the task's configuration, and the syntax of unit names.
pub mod Regex
pub mod Names
use Prim.Native.String.{len}
use nomad_driver_systemd.Prelude.{
  ℕ, String, Bool, true, false, ◌||◌, ◌&&◌, List, [], ◌∷◌, codes, leb, ltb, ◌==◌, ◌=?◌,
  if◌then◌else◌,
}
use nomad_driver_systemd.Errors.{Result, ok, err, message}
use nomad_driver_systemd.Config.Regex.{Re, eps, one, seq, alt, plus, empty, match_re}

pub record Config : Type 0 where
  pub allowed_units : List String
  pub denied_units : List String
  pub pprof_addr : String

pub record TaskConfig : Type 0 where
  pub unit : String

-- [a-zA-Z0-9:_.\\@-]
unfoldable pub is_name_char : ℕ → Bool
is_name_char c =
    (leb b'a' c && leb c b'z')
    || (leb b'A' c && leb c b'Z')
    || (leb b'0' c && leb c b'9')
    || c == b':'
    || c == b'_'
    || c == b'.'
    || c == 92
    || c == b'@'
    || c == b'-'

abbrev pub unit_types : List String
unit_types =
    "service" ∷ "socket" ∷ "timer" ∷ "mount" ∷ "automount" ∷ "swap" ∷ "target" ∷ "path" ∷ "slice"
    ∷ "scope" ∷ "device" ∷ []

abbrev pub literal : List ℕ → Re
literal [] = eps
literal (c ∷ cs) = seq (one (λ x. x == c)) (literal cs)

abbrev pub one_of : List String → Re
one_of [] = empty
one_of (s ∷ ss) = alt (literal (codes s)) (one_of ss)

-- unitNamePattern; its ^ and $ make MatchString a match of the whole text.
unfoldable pub unit_name_pattern : Re
unfolding is_name_char
unit_name_pattern = seq (plus (one is_name_char)) (seq (one (λ x. x == b'.')) (one_of unit_types))

unfoldable pub validate : TaskConfig → Result (Unit {0})
validate tc =
    if tc.unit =? ""
    then err (message "unit name is required")
    else if ltb 255 (len tc.unit)
    then err (message "unit name exceeds 255 characters")
    else if match_re unit_name_pattern (codes tc.unit)
    then ok tt
    else err (message "unit name is not a valid systemd unit name")
