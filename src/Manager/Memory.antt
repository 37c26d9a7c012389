-- ===== src/Manager/Memory.antt =====
-- pkg/systemd/cgroup.go: what memory.current and memory.stat give to a sample.
use nomad_driver_systemd.Prelude.{
  ℕ, codes, Bool, true, false, ◌||◌, List, [], ◌∷◌, ◌++◌, ◌≡◌, refl, ◌⊎◌, inl, inr, arith,
  Bool-cases, Option-cases,
}
use nomad_driver_systemd.Errors.{Result, ok, err}
use nomad_driver_systemd.Cgroup.{parse_cgroup_value}
use nomad_driver_systemd.Cgroup.Scan.{entries, lines, fold_until, scan_cgroup_key_value-fold_until}
use nomad_driver_systemd.Manager.Stats.{
  Metric, usage, rss, cache, MemoryStats, no_memory, MemoryScan, take_memory, scan_memory,
  read_memory_current, read_memory_stat, same_text,
}

abbrev pub listed : (Metric → Bool) → List Metric → Bool
listed is [] = false
listed is (m ∷ ms) = is m || listed is ms

abbrev pub is_usage : Metric → Bool
is_usage usage = true
is_usage _ = false

abbrev pub is_rss : Metric → Bool
is_rss rss = true
is_rss _ = false

abbrev pub is_cache : Metric → Bool
is_cache cache = true
is_cache _ = false

-- A metric is in its Measured list, or reads as zero.
abbrev pub ToldMemory : MemoryStats → Type 0
ToldMemory m =
    ((listed is_usage m.measured ≡ true) ⊎ (m.usage ≡ 0))
    × ((listed is_rss m.measured ≡ true) ⊎ (m.rss ≡ 0))
    × ((listed is_cache m.measured ≡ true) ⊎ (m.cache ≡ 0))

pub listed-append :
    (is : Metric → Bool) (ms : List Metric) (m : Metric)
    → listed is (ms ++ m ∷ []) ≡ (listed is ms || is m)
listed-append is [] m = ground arith
listed-append is (x ∷ ms) m = ground (arith, listed-append is ms m)

-- A callback that keeps a property of its state keeps it over a whole scan.
pub fold_until-keeps :
    {S : Type 0} (P : S → Type 0) (fn : List ℕ → ℕ → S → S × Bool)
    → ((key : List ℕ) (value : ℕ) (s : S) → P s → P (fn key value s).0)
    → (es : List (List ℕ × ℕ)) (s : S) → P s
    → P (fold_until fn es s)
unfolding fold_until
fold_until-keeps P fn keep [] s p = p
fold_until-keeps P fn keep ((key, value) ∷ es) s p = elim (Bool-cases (fn key value s).1) [
  | inl m ↦
      rw (m, fold_until) (fold_until-keeps P fn keep es (fn key value s).0 (keep key value s p))
  | inr m ↦ rw (m, fold_until) (keep key value s p)
]

-- The memory statistics with one more measured metric.
put_rss-Told :
    (v : ℕ) (m : MemoryStats)
    → ToldMemory m
    → ToldMemory (record m { rss = v; measured = m.measured ++ rss ∷ [] })
put_rss-Told v m (u, r, c) = (
  ground (arith, listed-append is_usage m.measured rss),
  ground (arith, listed-append is_rss m.measured rss),
  ground (arith, listed-append is_cache m.measured rss),
)

put_cache-Told :
    (v : ℕ) (m : MemoryStats)
    → ToldMemory m
    → ToldMemory (record m { cache = v; measured = m.measured ++ cache ∷ [] })
put_cache-Told v m (u, r, c) = (
  ground (arith, listed-append is_usage m.measured cache),
  ground (arith, listed-append is_rss m.measured cache),
  ground (arith, listed-append is_cache m.measured cache),
)

put_usage-Told :
    (v : ℕ) (m : MemoryStats)
    → ToldMemory m
    → ToldMemory (record m { usage = v; measured = m.measured ++ usage ∷ [] })
put_usage-Told v m (u, r, c) = (
  ground (arith, listed-append is_usage m.measured usage),
  ground (arith, listed-append is_rss m.measured usage),
  ground (arith, listed-append is_cache m.measured usage),
)

scan_memory-Told :
    (key : List ℕ) (value : ℕ) (s : MemoryScan)
    → ToldMemory s.stats
    → ToldMemory (scan_memory key value s).0.stats
unfolding scan_memory take_memory
scan_memory-Told key value s t = elim (Bool-cases (same_text key (codes "anon"))) [
  | inl a ↦ rw (a, scan_memory, take_memory) (put_rss-Told value s.stats t)
  | inr a ↦ elim (Bool-cases (same_text key (codes "file"))) [
    | inl f ↦ rw (a, scan_memory, take_memory) (rw f (put_cache-Told value s.stats t))
    | inr f ↦ rw (a, scan_memory, take_memory) (rw f t)
  ]
]

pub read_memory_current-Told :
    (r : Result (List ℕ)) (m : MemoryStats) → ToldMemory m → ToldMemory (read_memory_current r m)
unfolding read_memory_current
read_memory_current-Told (err e) m t = t
read_memory_current-Told (ok text) m t = elim (Option-cases (parse_cgroup_value text)) [
  | inl n ↦ rw (n, read_memory_current) t
  | inr (v, e) ↦ rw (e, read_memory_current) (put_usage-Told v m t)
]

pub read_memory_stat-Told :
    (r : Result (List ℕ)) (m : MemoryStats) → ToldMemory m → ToldMemory (read_memory_stat r m)
unfolding read_memory_stat
read_memory_stat-Told (err e) m t = t
read_memory_stat-Told (ok text) m t =
    let s : MemoryScan = record { stats = m; have_anon = false; have_file = false } in
    rw (read_memory_stat, scan_cgroup_key_value-fold_until scan_memory text s)
      (fold_until-keeps (λ s. ToldMemory s.stats) scan_memory scan_memory-Told
        (entries (lines text)) s t)

pub no_memory-Told : ToldMemory no_memory
no_memory-Told = (inr refl, inr refl, inr refl)
