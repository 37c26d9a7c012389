-- ===== src/Manager/Readings.antt =====
-- pkg/systemd/cgroup.go: a sample against the contents of the cgroup's files.
use nomad_driver_systemd.Prelude.{
  ap, ℕ, ◌*◌, ◌%◌, ◌^◌, String, Bool, true, false, ◌&&◌, Option, none, some, List, [], ◌∷◌, ◌≡◌,
  refl, ◌∙◌, subst, ◌=?◌, inl, inr, arith, Bool-cases, Option-cases,
}
use nomad_driver_systemd.Prelude.Map.{lookup-insert_self}
use nomad_driver_systemd.Errors.{Result, ok, err}
use nomad_driver_systemd.Host.{Host}
use nomad_driver_systemd.Cgroup.Scan.{scan_cgroup_key_value-fold_until, entries, lines}
use nomad_driver_systemd.Manager.{Manager, UnitEntry, set_tracker, unit_locked}
use nomad_driver_systemd.Manager.Stats.{
  Metric, CpuStats, ResourceStats, MemoryStats, no_memory, is_empty, no_cpu, scan_cpu,
  read_cpu_stat, read_memory_current, read_memory_stat, calculate_cpu_percent, cpu_sample,
  get_cgroup_v2_stats, percent, total_ticks, sample_at, empty_resource_stats,
}
use nomad_driver_systemd.Manager.Memory.{listed, is_usage, is_rss, is_cache}
use nomad_driver_systemd.Manager.Found.{
  values_in, first, Reads, ReadsMemory, fold-cpu, entries-empty, read_memory_current-From,
  read_memory_stat-Reads,
}

is_empty-nil : (ms : List Metric) → is_empty ms ≡ true → ms ≡ []
is_empty-nil [] e = refl
is_empty-nil (m ∷ ms) e = cc

read_cpu_stat-first :
    (file : Result (List ℕ)) → read_cpu_stat file ≡ first (values_in "usage_usec" file)
unfolding read_cpu_stat
read_cpu_stat-first (err e) = rw (read_cpu_stat, entries-empty) refl
read_cpu_stat-first (ok text) =
    scan_cgroup_key_value-fold_until scan_cpu text none ∙ fold-cpu (entries (lines text))

module _ ⦃h : Host⦄ where
  open h use {World, Float}

  -- The tracker of a unit's entry, or else a new one.
  abbrev pub cpu_tracker : Option ℕ → World → ℕ × World
  cpu_tracker (some t) w = (t, w)
  cpu_tracker none w = h.new_tracker w

  -- The CPU part of a sample, by the first usage in microseconds of cpu.stat and by the unit's entry
  -- in the registry, from the world w: what the unit's tracker makes of that usage in nanoseconds, in
  -- uint64, or nothing. The tracker is the one of the entry, or a new one, and is the entry's in the
  -- Manager n afterwards.
  abbrev pub ReadsCpu :
      Option ℕ → Option UnitEntry → String → World → CpuStats Float → Manager → Type 0
  ReadsCpu none _ unit w c n = c ≡ no_cpu
  ReadsCpu (some usec) none unit w c n = c ≡ no_cpu
  ReadsCpu (some usec) (some st) unit w c n =
      let (tracker, w1) = cpu_tracker st.cpu w in
      let (p, w2) = h.tracker_percent tracker (usec * 1000 % 2 ^ 64) w1 in
      (c.measured ≡ percent ∷ total_ticks ∷ [])
      × (c.percent ≡ p)
      × (c.total_ticks ≡ (h.tracker_ticks tracker p w2).0)
      × (unit_locked n unit ≡ some (record st { cpu = some tracker }))

  known-cpu : (st : UnitEntry) (t : ℕ) → st.cpu ≡ some t → st ≡ record st { cpu = some t }
  known-cpu st t e = ap (λ o. record st { cpu = o }) e

  set_tracker-stored :
      (unit : String) (st : UnitEntry) (t : ℕ) (m : Manager)
      → unit_locked (set_tracker unit st t m) unit ≡ some (record st { cpu = some t })
  unfolding unit_locked set_tracker
  set_tracker-stored unit st t m = lookup-insert_self unit (record st { cpu = some t }) m.units

  cpu_sample-Reads :
      (unit : String) (usec : Option ℕ) (m : Manager) (w : World)
      → let (c, n, _) = cpu_sample unit usec m w in ReadsCpu usec (unit_locked m unit) unit w c n
  unfolding cpu_sample calculate_cpu_percent set_tracker
  cpu_sample-Reads unit none m w = refl
  cpu_sample-Reads unit (some usec) m w = elim (Option-cases (unit_locked m unit)) [
    | inl n ↦ rw (n, calculate_cpu_percent) refl
    | inr (st, e) ↦ elim (Option-cases st.cpu) [
      | inl n ↦
          rw (e, calculate_cpu_percent)
            (rw n (refl, refl, refl, set_tracker-stored unit st (h.new_tracker w).0 m))
      | inr (t, c) ↦
          rw (e, calculate_cpu_percent) (rw c (refl, refl, refl, e ∙ ap some (known-cpu st t c)))
    ]
  ]

  -- The sample at a path is a reading of the files there, as they are when it is taken.
  abbrev pub ReadsFiles : String → String → Manager → World → ResourceStats Float → Manager → Type 0
  ReadsFiles unit path m w s n =
      let (current, w1) = h.read_file path "memory.current" w in
      let (stat, w2) = h.read_file path "memory.stat" w1 in
      let (cpu, w3) = h.read_file path "cpu.stat" w2 in
      ReadsMemory current stat s.memory_stats
      × ReadsCpu (first (values_in "usage_usec" cpu)) (unit_locked m unit) unit w3 s.cpu_stats n

  unmeasured-Reads :
      (listed_ : Bool) (n : ℕ) (vs : List ℕ)
      → listed_ ≡ false
      → Reads listed_ n vs
      → Reads false 0 vs
  unmeasured-Reads b n [] e r = (refl, inl (refl, refl))
  unmeasured-Reads b n (v ∷ vs) e (l, r) = absurd (ground arith)

  unmeasured-ReadsMemory :
      (current stat : Result (List ℕ)) (m : MemoryStats)
      → is_empty m.measured ≡ true
      → ReadsMemory current stat m
      → ReadsMemory current stat no_memory
  unmeasured-ReadsMemory current stat m e (u, r, c) =
      let nil : m.measured ≡ [] = is_empty-nil m.measured e in
      (
        unmeasured-Reads (listed is_usage m.measured) m.usage _ (rw nil refl) u,
        unmeasured-Reads (listed is_rss m.measured) m.rss _ (rw nil refl) r,
        unmeasured-Reads (listed is_cache m.measured) m.cache _ (rw nil refl) c,
      )

  unmeasured-ReadsCpu :
      (usec : Option ℕ) (o : Option UnitEntry) (unit : String) (w : World) (c : CpuStats Float)
      (n : Manager)
      → is_empty c.measured ≡ true
      → ReadsCpu usec o unit w c n
      → ReadsCpu usec o unit w no_cpu n
  unmeasured-ReadsCpu none o unit w c n e r = refl
  unmeasured-ReadsCpu (some usec) none unit w c n e r = refl
  unmeasured-ReadsCpu (some usec) (some st) unit w c n e (m, _, _, _) = absurd (ground arith)

  -- The sample taken at a cgroup's path that is not empty succeeds, and is a reading of the files
  -- there, where a file that cannot be read counts as empty. The usage is the number in
  -- memory.current, rss and cache are values of the keys anon and file in memory.stat, and each is
  -- listed as measured exactly if there is such a value, and is zero otherwise; the CPU part is what
  -- the tracker of a registered unit makes of the first usage_usec in cpu.stat, in nanoseconds, and
  -- empty if there is none or the unit is not registered. That tracker is the one that the unit has,
  -- or a new one if it has none, and is the unit's afterwards.
  pub sample_at-ReadsFiles :
      (unit path : String) (m : Manager) (w : World)
      → (path =? "") ≡ false
      → (s : ResourceStats Float) × ((sample_at unit path m w).0 ≡ ok s)
        × ReadsFiles unit path m w s (sample_at unit path m w).1
  unfolding sample_at get_cgroup_v2_stats
  sample_at-ReadsFiles unit path m w p =
      let (current, w1) = h.read_file path "memory.current" w in
      let (stat, w2) = h.read_file path "memory.stat" w1 in
      let (cpu, w3) = h.read_file path "cpu.stat" w2 in
      let memory = read_memory_stat stat (read_memory_current current no_memory) in
      let (sample, n, _) = cpu_sample unit (read_cpu_stat cpu) m w3 in
      let reads = read_memory_stat-Reads current stat _ (read_memory_current-From current) in
      let cpu_reads : ReadsCpu (first (values_in "usage_usec" cpu)) (unit_locked m unit) unit w3
          sample n =
        subst (λ u. ReadsCpu u (unit_locked m unit) unit w3 sample n) (read_cpu_stat-first cpu)
          (cpu_sample-Reads unit (read_cpu_stat cpu) m w3) in
      let after : (sample_at unit path m w).1 ≡ n = rw (p, sample_at) refl in
      elim (Bool-cases (is_empty memory.measured && is_empty sample.measured)) [
        | inl e ↦ (
          empty_resource_stats,
          ground arith,
          (
            unmeasured-ReadsMemory current stat memory (ground arith) reads,
            rw after (
                unmeasured-ReadsCpu _ (unit_locked m unit) unit w3 sample n (ground arith)
                  cpu_reads),
          ),
        )
        | inr e ↦ (
          record { cpu_stats = sample; memory_stats = memory },
          ground arith,
          (reads, rw after cpu_reads),
        )
      ]
