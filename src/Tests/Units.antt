-- ===== src/Tests/Units.antt =====
-- Unit states, policies, unit names and cgroup files at concrete inputs.
use Prim.Native.String.{len}
use nomad_driver_systemd.Prelude.{
  ℕ, ◌^◌, ◌≤◌, String, none, some, List, [], ◌∷◌, ◌++◌, ◌≡◌, ◌≢◌, ◌↔◌, ◌⊎◌, codes, ltb,
  if◌then◌else◌,
}
use nomad_driver_systemd.Prelude.Int.{pos}
use nomad_driver_systemd.Errors.{ok}
use nomad_driver_systemd.Units.{int64, uint64, parse_timestamp_usec, max_int64}
use nomad_driver_systemd.Units.Laws.{parse_timestamp_usec_iff}
use nomad_driver_systemd.Policy.{UnitPolicy, check}
use nomad_driver_systemd.Policy.Laws.{check_iff, Unmatched, Matched}
use nomad_driver_systemd.Config.{validate}
use nomad_driver_systemd.Config.Names.{validate_iff, WellNamed}
use nomad_driver_systemd.Cgroup.{newline, parse_cgroup_value, scan_cgroup_key_value}
use nomad_driver_systemd.Cgroup.Scan.{fold_until, entries, lines, scan_cgroup_key_value-fold_until}
use nomad_driver_systemd.Cgroup.Decimal.{decimal, parse_cgroup_value-decimal}
use nomad_driver_systemd.Manager.Stats.{scan_cpu}
use nomad_driver_systemd.Tests.TestHost.{test_regexps}

parse_timestamp_usec_iff_example :
    (parse_timestamp_usec (uint64 5000) ≡ some 5000)
    ↔ (((uint64 5000 ≡ uint64 5000) × (5000 ≤ max_int64)) ⊎ (uint64 5000 ≡ int64 (pos 5000)))
parse_timestamp_usec_iff_example = parse_timestamp_usec_iff (uint64 5000) 5000

abbrev any_unit : List String
any_unit = ".*" ∷ []

abbrev web : String
web = "web.service"

abbrev guarded : UnitPolicy
guarded = record { allowed = ".*" ∷ []; denied = "sshd.service" ∷ [] }

check_iff_example : (check test_regexps guarded "web.service" ≡ ok tt) ↔ (
    Unmatched test_regexps ("sshd.service" ∷ []) "web.service"
    × ((any_unit ≡ []) ⊎ Matched test_regexps any_unit "web.service"))
check_iff_example = check_iff test_regexps guarded "web.service"

validate_iff_example :
    (validate (record { unit = web }) ≡ ok tt)
    ↔ ((web ≢ "") × (len web ≤ 255) × WellNamed (codes web))
validate_iff_example = validate_iff (record { unit = web })

abbrev cpu_stat : List ℕ
cpu_stat = codes "nr_periods x" ++ newline ∷ (codes "usage_usec 12" ++ newline ∷ [])

scan_cgroup_key_value-fold_until_example :
    scan_cgroup_key_value scan_cpu cpu_stat none
    ≡ fold_until scan_cpu (entries (lines cpu_stat)) none
scan_cgroup_key_value-fold_until_example = scan_cgroup_key_value-fold_until scan_cpu cpu_stat none

parse_cgroup_value-decimal_example :
    parse_cgroup_value (decimal 1025 1024 ++ newline ∷ [])
    ≡ (if ltb 1024 (2 ^ 64) then some 1024 else none)
parse_cgroup_value-decimal_example = parse_cgroup_value-decimal 1024
