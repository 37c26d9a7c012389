-- ===== src/Manager/Measured.antt =====
-- pkg/systemd/cgroup.go: a sample and its Measured lists.
use nomad_driver_systemd.Prelude.{
  ℕ, String, ◌=?◌, Bool, true, false, Option, none, some, ◌≡◌, refl, ◌⊎◌, inl, inr, arith, subst,
  Bool-cases, Option-cases,
}
use nomad_driver_systemd.Errors.{Error, Result, ok, err, is_unit_not_registered}
use nomad_driver_systemd.Host.{Host}
use nomad_driver_systemd.Manager.{Manager, registered, unit_locked}
use nomad_driver_systemd.Manager.Sampling.{cache_unit_properties-registered}
use nomad_driver_systemd.Manager.Stats.{
  Metric, percent, total_ticks, CpuStats, ResourceStats, no_memory, empty_resource_stats,
  read_memory_current, read_memory_stat, read_cpu_stat, cpu_sample, calculate_cpu_percent,
  get_cgroup_v2_stats, sample_at, is_stale, resource_stats,
}
use nomad_driver_systemd.Manager.Memory.{
  listed, ToldMemory, read_memory_current-Told, read_memory_stat-Told, no_memory-Told,
}

abbrev pub is_percent : Metric → Bool
is_percent percent = true
is_percent _ = false

abbrev pub is_total_ticks : Metric → Bool
is_total_ticks total_ticks = true
is_total_ticks _ = false

module _ ⦃h : Host⦄ where
  open h use {World, Float}

  abbrev pub ToldCpu : CpuStats Float → Type 0
  ToldCpu c =
      ((listed is_percent c.measured ≡ true) ⊎ (c.percent ≡ h.float_zero))
      × ((listed is_total_ticks c.measured ≡ true) ⊎ (c.total_ticks ≡ h.float_zero))

  abbrev pub Told : ResourceStats Float → Type 0
  Told s = ToldCpu s.cpu_stats × ToldMemory s.memory_stats

  calculate_cpu_percent-Told :
      (unit : String) (nsec : ℕ) (m : Manager) (w : World)
      → ToldCpu (calculate_cpu_percent unit nsec m w).0
  unfolding calculate_cpu_percent
  calculate_cpu_percent-Told unit nsec m w = elim (Option-cases (unit_locked m unit)) [
    | inl n ↦ rw (n, calculate_cpu_percent) (inr refl, inr refl)
    | inr (st, e) ↦ rw (e, calculate_cpu_percent) (inl refl, inl refl)
  ]

  cpu_sample-Told :
      (unit : String) (usec : Option ℕ) (m : Manager) (w : World)
      → ToldCpu (cpu_sample unit usec m w).0
  unfolding cpu_sample
  cpu_sample-Told unit none m w = (inr refl, inr refl)
  cpu_sample-Told unit (some usec) m w = calculate_cpu_percent-Told unit _ m w

  empty-Told : Told empty_resource_stats
  empty-Told = ((inr refl, inr refl), no_memory-Told)

  get_cgroup_v2_stats-Told :
      (unit path : String) (m : Manager) (w : World) (s : ResourceStats Float)
      → (get_cgroup_v2_stats unit path m w).0 ≡ some s
      → Told s
  unfolding get_cgroup_v2_stats
  get_cgroup_v2_stats-Told unit path m w s e =
      let (current, w1) = h.read_file path "memory.current" w in
      let (stat, w2) = h.read_file path "memory.stat" w1 in
      let (cpu, w3) = h.read_file path "cpu.stat" w2 in
      let memory = read_memory_stat stat (read_memory_current current no_memory) in
      let made : record {
        cpu_stats = (cpu_sample unit (read_cpu_stat cpu) m w3).0;
        memory_stats = memory;
      }
          ≡ s =
        ground arith in
      let memory_told =
        read_memory_stat-Told stat _ (read_memory_current-Told current no_memory no_memory-Told) in
      let cpu_told = cpu_sample-Told unit (read_cpu_stat cpu) m w3 in
      subst Told made (cpu_told, memory_told)

  -- The call succeeds, and every metric of the sample is listed as measured or reads as zero.
  abbrev pub SampleTold : Result (ResourceStats Float) → Type 0
  SampleTold r = (s : ResourceStats Float) × (r ≡ ok s) × Told s

  sample_at-Told :
      (unit path : String) (m : Manager) (w : World) → SampleTold (sample_at unit path m w).0
  unfolding sample_at
  sample_at-Told unit path m w = elim (Bool-cases (path =? "")) [
    | inl b ↦ rw (b, sample_at) (empty_resource_stats, refl, empty-Told)
    | inr b ↦ elim (Option-cases (get_cgroup_v2_stats unit path m w).0) [
      | inl n ↦ rw (b, sample_at) (rw n (empty_resource_stats, refl, empty-Told))
      | inr (s, n) ↦ rw (b, sample_at) (rw n (s, refl, get_cgroup_v2_stats-Told unit path m w s n))
    ]
  ]

  -- A registered unit always gets a sample, in which each metric is in its Measured list or reads as
  -- zero; for any other the error is that it is not registered.
  pub resource_stats-Told :
      (m : Manager) (ctx : Bool) (unit : String) (w : World)
      → ((registered m unit ≡ true) × SampleTold (resource_stats m ctx unit w).0)
        ⊎ ((registered m unit ≡ false)
            × ((e : Error) × ((resource_stats m ctx unit w).0 ≡ err e)
                × (is_unit_not_registered e ≡ true)))
  unfolding resource_stats registered
  resource_stats-Told m ctx unit w = elim (Option-cases (unit_locked m unit)) [
    | inl n ↦
        inr (ground arith, rw (n, resource_stats) (_, refl, unfold is_unit_not_registered in refl))
    | inr (st, e) ↦ inl (
      ground arith,
      elim (Bool-cases (is_stale st.control_group st.cached_at w).0) [
        | inr f ↦ rw (e, resource_stats) (rw f (sample_at-Told unit _ _ _))
        | inl f ↦
            let (st', q) =
              cache_unit_properties-registered ctx unit m
                (is_stale st.control_group st.cached_at w).1 st e in
            rw (e, resource_stats) (rw f (rw q (sample_at-Told unit _ _ _)))
      ],
    )
  ]
