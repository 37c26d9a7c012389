-- ===== src/Manager/Stats.antt =====
-- pkg/systemd/cgroup.go: a sample of a unit's CPU and memory usage.
use nomad_driver_systemd.Prelude.{
  ℕ, ◌-◌, ◌*◌, ◌%◌, ◌^◌, String, Bool, true, false, ◌&&◌, ◌||◌, not, Option, none, some, List, [],
  ◌∷◌, ◌++◌, codes, ltb, ◌==◌, ◌=?◌, if◌then◌else◌,
}
use nomad_driver_systemd.Errors.{Result, ok, err, wrap, unit_not_registered}
use nomad_driver_systemd.Cgroup.{scan_cgroup_key_value, parse_cgroup_value}
use nomad_driver_systemd.Host.{Host}
use nomad_driver_systemd.Manager.{
  Manager, UnitEntry, second, unit_locked, cache_unit_properties, set_tracker,
}

abbrev pub cgroup_retry_interval : ℕ
cgroup_retry_interval = 5 * second

-- The entries of the Measured lists.
pub data Metric : Type 0 where
  usage rss cache percent total_ticks : Metric

pub record MemoryStats : Type 0 where
  pub rss : ℕ
  pub cache : ℕ
  pub usage : ℕ
  pub measured : List Metric

pub record CpuStats (F : Type 0) : Type 0 where
  pub percent : F
  pub total_ticks : F
  pub measured : List Metric

pub record ResourceStats (F : Type 0) : Type 0 where
  pub cpu_stats : CpuStats F
  pub memory_stats : MemoryStats

abbrev pub no_memory : MemoryStats
no_memory = record { rss = 0; cache = 0; usage = 0; measured = [] }

-- The variables of the closure over memory.stat.
pub record MemoryScan : Type 0 where
  pub stats : MemoryStats
  pub have_anon : Bool
  pub have_file : Bool

abbrev pub same_text : List ℕ → List ℕ → Bool
same_text [] [] = true
same_text (a ∷ as') (b ∷ bs) = a == b && same_text as' bs
same_text _ _ = false

-- The switch of the closure over memory.stat.
unfoldable pub take_memory : List ℕ → ℕ → MemoryScan → MemoryScan
take_memory key value s =
    let m = s.stats in
    if same_text key (codes "anon")
    then record s {
      stats = record m { rss = value; measured = m.measured ++ rss ∷ [] };
      have_anon = true;
    }
    else if same_text key (codes "file")
    then record s {
      stats = record m { cache = value; measured = m.measured ++ cache ∷ [] };
      have_file = true;
    }
    else s

unfoldable pub scan_memory : List ℕ → ℕ → MemoryScan → MemoryScan × Bool
scan_memory key value s =
    let s' = take_memory key value s in (s', not s'.have_anon || not s'.have_file)

-- The value of the first line with key usage_usec, at which the closure over cpu.stat stops.
unfoldable pub scan_cpu : List ℕ → ℕ → Option ℕ → Option ℕ × Bool
scan_cpu key value s = if same_text key (codes "usage_usec") then (some value, false) else (s, true)

unfoldable pub read_memory_current : Result (List ℕ) → MemoryStats → MemoryStats
read_memory_current (err e) m = m
read_memory_current (ok text) m = elim (parse_cgroup_value text) [
  | none ↦ m
  | some v ↦ record m { usage = v; measured = m.measured ++ usage ∷ [] }
]

unfoldable pub read_memory_stat : Result (List ℕ) → MemoryStats → MemoryStats
read_memory_stat (err e) m = m
read_memory_stat (ok text) m =
    (scan_cgroup_key_value scan_memory text
      (record { stats = m; have_anon = false; have_file = false })).stats

unfoldable pub read_cpu_stat : Result (List ℕ) → Option ℕ
read_cpu_stat (err e) = none
read_cpu_stat (ok text) = scan_cgroup_key_value scan_cpu text none

abbrev pub is_empty : List Metric → Bool
is_empty [] = true
is_empty (_ ∷ _) = false

-- The cached cgroup path and when it was read, for a registered unit.
abbrev pub cached_control_group : Manager → String → Option (String × Option ℕ)
cached_control_group m unit = elim (unit_locked m unit) [
  | none ↦ none
  | some st ↦ some (st.control_group, st.cached_at)
]

module _ ⦃h : Host⦄ where
  open h use {World, Float}

  abbrev pub no_cpu : CpuStats Float
  no_cpu = record { percent = h.float_zero; total_ticks = h.float_zero; measured = [] }

  abbrev pub empty_resource_stats : ResourceStats Float
  empty_resource_stats = record { cpu_stats = no_cpu; memory_stats = no_memory }

  -- The unit's CPU tracker, made at its first sample.
  tracker_of : String → UnitEntry → Manager → World → ℕ × Manager × World
  tracker_of unit st m w = elim st.cpu [
    | some t ↦ (t, m, w)
    | none ↦ let (t, w') = h.new_tracker w in (t, set_tracker unit st t m, w')
  ]

  unfoldable pub calculate_cpu_percent :
      String → ℕ → Manager → World → CpuStats Float × Manager × World
  unfolding tracker_of
  calculate_cpu_percent unit nsec m w = elim (unit_locked m unit) [
    | none ↦ (no_cpu, m, w)
    | some st ↦
        let (tracker, m', w1) = tracker_of unit st m w in
        let (p, w2) = h.tracker_percent tracker nsec w1 in
        let (t, w3) = h.tracker_ticks tracker p w2 in
        (record { percent = p; total_ticks = t; measured = percent ∷ total_ticks ∷ [] }, m', w3)
  ]

  -- Cumulative microseconds become nanoseconds in uint64.
  unfoldable pub cpu_sample : String → Option ℕ → Manager → World → CpuStats Float × Manager × World
  cpu_sample unit none m w = (no_cpu, m, w)
  cpu_sample unit (some usec) m w = calculate_cpu_percent unit (usec * 1000 % 2 ^ 64) m w

  -- The host uses the unified hierarchy. The path is that of cgroup.controllers in the root.
  abbrev pub cgroup_v2_available : String → World → Bool
  cgroup_v2_available controllers w = h.file_exists controllers w

  unfoldable pub get_cgroup_v2_stats :
      String → String → Manager → World → Option (ResourceStats Float) × Manager × World
  get_cgroup_v2_stats unit path m w =
      let (current, w1) = h.read_file path "memory.current" w in
      let (stat, w2) = h.read_file path "memory.stat" w1 in
      let (cpu, w3) = h.read_file path "cpu.stat" w2 in
      let memory = read_memory_stat stat (read_memory_current current no_memory) in
      let (sample, m', w4) = cpu_sample unit (read_cpu_stat cpu) m w3 in
      (
        if is_empty memory.measured && is_empty sample.measured
            then none
            else some (record { cpu_stats = sample; memory_stats = memory }),
        m',
        w4,
      )

  -- Whether the cached cgroup path is read again; the clock is read only for an empty path.
  unfoldable pub is_stale : String → Option ℕ → World → Bool × World
  is_stale path cached_at w = elim cached_at [
    | none ↦ (true, w)
    | some t ↦
        if path =? ""
        then (let (now, w') = h.now w in (ltb cgroup_retry_interval (now - t), w'))
        else (false, w)
  ]

  -- The sample at a cached cgroup path.
  unfoldable pub sample_at :
      String → String → Manager → World → Result (ResourceStats Float) × Manager × World
  sample_at unit path m w =
      if path =? ""
      then (ok empty_resource_stats, m, w)
      else (let (r, m', w') = get_cgroup_v2_stats unit path m w in
          (elim r [ none ↦ ok empty_resource_stats | some s ↦ ok s ], m', w'))

  abbrev not_registered : Result (ResourceStats Float)
  not_registered = err (wrap "resource stats" unit_not_registered)

  unfoldable pub resource_stats :
      Manager → Bool → String → World → Result (ResourceStats Float) × Manager × World
  resource_stats m ctx unit w = elim (cached_control_group m unit) [
    | none ↦ (not_registered, m, w)
    | some (path, cached_at) ↦
        let (stale, w1) = is_stale path cached_at w in
        if stale
        then (let (m', w2) = cache_unit_properties ctx unit m w1 in
            elim (cached_control_group m' unit) [
              | none ↦ (not_registered, m', w2)
              | some (path', _) ↦ sample_at unit path' m' w2
            ])
        else sample_at unit path m w1
  ]
