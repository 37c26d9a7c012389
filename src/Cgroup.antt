-- ===== src/Cgroup.antt =====
-- pkg/systemd/cgroup.go: the parsing of cgroup accounting files, as code points. The functions of
-- bytes, strings and strconv that it calls are written out for the calls that it makes.
pub mod Scan
pub mod Decimal
use mathlib.Core.List.{reverse}
use nomad_driver_systemd.Prelude.{
  ℕ, zero, suc, ◌+◌, ◌-◌, ◌*◌, ◌^◌, Bool, true, false, ◌&&◌, ◌||◌, Option, none, some, List, [],
  ◌∷◌, length, leb, ltb, ◌==◌, if◌then◌else◌,
}

-- unicode.IsSpace.
unfoldable pub is_space : ℕ → Bool
is_space c =
    (leb 9 c && leb c 13)
    || c == 32
    || c == 0x85
    || c == 0xa0
    || c == 0x1680
    || (leb 0x2000 c && leb c 0x200a)
    || c == 0x2028
    || c == 0x2029
    || c == 0x202f
    || c == 0x205f
    || c == 0x3000

unfoldable pub trim_left : List ℕ → List ℕ
trim_left [] = []
trim_left (c ∷ cs) = if is_space c then trim_left cs else c ∷ cs

-- bytes.TrimSpace and strings.TrimSpace.
unfoldable pub trim_space : List ℕ → List ℕ
trim_space cs = reverse (trim_left (reverse (trim_left cs)))

abbrev pub is_digit : ℕ → Bool
is_digit c = leb b'0' c && leb c b'9'

-- The loop of strconv.ParseUint(s, 10, 64), which fails at the first character that is no digit or
-- that takes the value past 64 bits.
unfoldable pub parse_digits : ℕ → List ℕ → Option ℕ
parse_digits n [] = some n
parse_digits n (c ∷ cs) =
    let n' = n * 10 + (c - b'0') in
    let rest = parse_digits n' cs in
    if is_digit c then (if ltb n' (2 ^ 64) then rest else none) else none

unfoldable pub parse_uint : List ℕ → Option ℕ
parse_uint [] = none
parse_uint (c ∷ cs) = parse_digits 0 (c ∷ cs)

abbrev pub newline : ℕ
newline = 10

-- bytes.IndexByte(data, newline) and the two slices; without a newline the rest is empty.
unfoldable pub take_line : List ℕ → List ℕ × List ℕ
take_line [] = ([], [])
take_line (c ∷ cs) =
    let (line, rest) = take_line cs in if c == newline then ([], cs) else (c ∷ line, rest)

abbrev pub keep : ℕ → Option (List ℕ × List ℕ) → Option (List ℕ × List ℕ)
keep c none = none
keep c (some (before, after)) = some (c ∷ before, after)

-- bytes.Cut at the first space.
unfoldable pub cut : List ℕ → Option (List ℕ × List ℕ)
cut [] = none
cut (c ∷ cs) = if c == 32 then some ([], cs) else keep c (cut cs)

-- The key and the value of a line, if it parses.
unfoldable pub parse_line : List ℕ → Option (List ℕ × ℕ)
parse_line line = elim (cut line) [
  | none ↦ none
  | some (key, rest) ↦ elim (parse_uint (trim_space rest)) [
    | none ↦ none
    | some value ↦ some (key, value)
  ]
]

module _ {S : Type 0} (fn : List ℕ → ℕ → S → S × Bool) where
  -- scanCgroupKeyValue, on fuel; the closure's variables are the state, and its result tells
  -- whether to go on.
  unfoldable pub scan : ℕ → List ℕ → S → S
  scan zero text s = s
  scan (suc fuel) [] s = s
  scan (suc fuel) (c ∷ cs) s =
      let (line, rest) = take_line (c ∷ cs) in
      elim (parse_line line) [
        | none ↦ scan fuel rest s
        | some (key, value) ↦
            let (s', more) = fn key value s in elim more [ true ↦ scan fuel rest s' | false ↦ s' ]
      ]

  unfoldable pub scan_cgroup_key_value : List ℕ → S → S
  scan_cgroup_key_value text s = scan (length text) text s

-- readCgroupV2File on the contents of the file.
unfoldable pub parse_cgroup_value : List ℕ → Option ℕ
parse_cgroup_value text = parse_uint (trim_space text)
