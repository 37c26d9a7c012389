-- ===== src/Manager/Found.antt =====
-- pkg/systemd/cgroup.go: the metrics of a sample against the values that the files hold.
use nomad_driver_systemd.Prelude.{
  ℕ, codes, Bool, true, false, ◌&&◌, ◌||◌, not, Option, none, some, List, [], ◌∷◌, ◌==◌, ◌≡◌, refl,
  String, Option-cases, ◌⊎◌, inl, inr, arith, if◌then◌else◌,
}
use nomad_driver_systemd.Errors.{Result, ok, err}
use nomad_driver_systemd.Cgroup.{parse_cgroup_value, parse_uint, trim_space, trim_left}
use nomad_driver_systemd.Cgroup.Scan.{entries, lines, fold_until, scan_cgroup_key_value-fold_until}
use nomad_driver_systemd.Manager.Stats.{
  rss, cache, MemoryStats, MemoryScan, same_text, take_memory, scan_memory, scan_cpu,
  read_memory_current, read_memory_stat, no_memory,
}
use nomad_driver_systemd.Manager.Memory.{
  listed, is_rss, is_cache, is_usage, listed-append, fold_until-keeps,
}

-- The values of the entries with a key, in order.
abbrev pub values : List ℕ → List (List ℕ × ℕ) → List ℕ
values key [] = []
values key ((name, value) ∷ es) =
    if same_text name key then value ∷ values key es else values key es

abbrev pub has : ℕ → List ℕ → Bool
has v [] = false
has v (x ∷ xs) = x == v || has v xs

abbrev pub first : List ℕ → Option ℕ
first [] = none
first (v ∷ vs) = some v

abbrev pub given : Option ℕ → List ℕ
given none = []
given (some v) = v ∷ []

abbrev pub some_value : List ℕ → Bool
some_value [] = false
some_value (v ∷ vs) = true

same_text-eq : (a b : List ℕ) → same_text a b ≡ true → a ≡ b
same_text-eq [] [] e = refl
same_text-eq (x ∷ xs) (y ∷ ys) e = ground (arith, same_text-eq xs ys)
same_text-eq [] (y ∷ ys) e = cc
same_text-eq (x ∷ xs) [] e = cc

anon-file :
    (key : List ℕ) → same_text key (codes "anon") ≡ true → same_text key (codes "file") ≡ false
anon-file key a = rw (same_text-eq key (codes "anon") a) refl

fold-anon :
    (es : List (List ℕ × ℕ)) (s : MemoryScan)
    → (s.have_anon && s.have_file) ≡ false
    → (fold_until scan_memory es s).have_anon
      ≡ (s.have_anon || some_value (values (codes "anon") es))
unfolding fold_until scan_memory take_memory
fold-anon [] s n = ground arith
fold-anon ((key, value) ∷ es) s n =
    ground (arith, anon-file key, fold-anon es (take_memory key value s))

fold-file :
    (es : List (List ℕ × ℕ)) (s : MemoryScan)
    → (s.have_anon && s.have_file) ≡ false
    → (fold_until scan_memory es s).have_file
      ≡ (s.have_file || some_value (values (codes "file") es))
unfolding fold_until scan_memory take_memory
fold-file [] s n = ground arith
fold-file ((key, value) ∷ es) s n =
    ground (arith, anon-file key, fold-file es (take_memory key value s))

fold-rss :
    (es : List (List ℕ × ℕ)) (s : MemoryScan)
    → let r = fold_until scan_memory es s in
      ((r.stats.rss ≡ s.stats.rss)
        × ((s.have_anon || not (some_value (values (codes "anon") es))) ≡ true))
      ⊎ (has r.stats.rss (values (codes "anon") es) ≡ true)
unfolding fold_until scan_memory take_memory
fold-rss [] s = ground arith
fold-rss ((key, value) ∷ es) s =
    ground (arith, anon-file key, fold-rss es (take_memory key value s))

fold-cache :
    (es : List (List ℕ × ℕ)) (s : MemoryScan)
    → let r = fold_until scan_memory es s in
      ((r.stats.cache ≡ s.stats.cache)
        × ((s.have_file || not (some_value (values (codes "file") es))) ≡ true))
      ⊎ (has r.stats.cache (values (codes "file") es) ≡ true)
unfolding fold_until scan_memory take_memory
fold-cache [] s = ground arith
fold-cache ((key, value) ∷ es) s =
    ground (arith, anon-file key, fold-cache es (take_memory key value s))

-- Throughout the scan: the lists follow the flags, and memory.current's part stays.
abbrev Lists : MemoryStats → MemoryScan → Type 0
Lists m s =
    (listed is_rss s.stats.measured ≡ s.have_anon)
    × (listed is_cache s.stats.measured ≡ s.have_file)
    × (listed is_usage s.stats.measured ≡ listed is_usage m.measured)
    × (s.stats.usage ≡ m.usage)

scan_memory-Lists :
    (m : MemoryStats) (key : List ℕ) (value : ℕ) (s : MemoryScan)
    → Lists m s
    → Lists m (scan_memory key value s).0
unfolding scan_memory take_memory
scan_memory-Lists m key value s (a, f, u, v) =
    let old = s.stats.measured in
    (
      ground (arith, listed-append is_rss old rss, listed-append is_rss old cache),
      ground (arith, listed-append is_cache old rss, listed-append is_cache old cache),
      ground (arith, listed-append is_usage old rss, listed-append is_usage old cache),
      ground arith,
    )

pub fold-cpu :
    (es : List (List ℕ × ℕ)) → fold_until scan_cpu es none ≡ first (values (codes "usage_usec") es)
unfolding fold_until scan_cpu
fold-cpu [] = refl
fold-cpu ((key, value) ∷ es) = ground (arith, fold-cpu es)

-- What the values of a key in a file mean for a metric: it is measured exactly if there is a value;
-- it reads as one of the values then, and as zero otherwise.
abbrev pub Reads : Bool → ℕ → List ℕ → Type 0
Reads measured reading vs =
    (measured ≡ some_value vs) × (((vs ≡ []) × (reading ≡ 0)) ⊎ (has reading vs ≡ true))

-- The contents of a file, none if it cannot be read.
abbrev pub text_of : Result (List ℕ) → List ℕ
text_of (ok text) = text
text_of (err e) = []

abbrev pub values_in : String → Result (List ℕ) → List ℕ
values_in key file = values (codes key) (entries (lines (text_of file)))

-- The memory part of a sample, by the contents of memory.current and of memory.stat.
abbrev pub ReadsMemory : Result (List ℕ) → Result (List ℕ) → MemoryStats → Type 0
ReadsMemory current stat m =
    Reads (listed is_usage m.measured) m.usage (given (parse_cgroup_value (text_of current)))
    × Reads (listed is_rss m.measured) m.rss (values_in "anon" stat)
    × Reads (listed is_cache m.measured) m.cache (values_in "file" stat)

parse_cgroup_value-empty : parse_cgroup_value [] ≡ none
unfolding parse_cgroup_value parse_uint trim_space trim_left
parse_cgroup_value-empty = refl

pub entries-empty : entries (lines []) ≡ []
unfolding entries lines
entries-empty = refl

-- What memory.current gives.
abbrev pub FromCurrent : Result (List ℕ) → MemoryStats → Type 0
FromCurrent current m =
    Reads (listed is_usage m.measured) m.usage (given (parse_cgroup_value (text_of current)))
    × (listed is_rss m.measured ≡ false)
    × (listed is_cache m.measured ≡ false)
    × (m.rss ≡ 0)
    × (m.cache ≡ 0)

pub read_memory_current-From :
    (current : Result (List ℕ)) → FromCurrent current (read_memory_current current no_memory)
unfolding read_memory_current
read_memory_current-From (err e) =
    rw parse_cgroup_value-empty ((refl, inl (refl, refl)), refl, refl, refl, refl)
read_memory_current-From (ok text) = elim (Option-cases (parse_cgroup_value text)) [
  | inl n ↦ rw (n, read_memory_current) ((refl, inl (refl, refl)), refl, refl, refl, refl)
  | inr (v, e) ↦ rw (e, read_memory_current) ((refl, inr (ground arith)), refl, refl, refl, refl)
]

pub read_memory_stat-Reads :
    (current stat : Result (List ℕ)) (m : MemoryStats)
    → FromCurrent current m
    → ReadsMemory current stat (read_memory_stat stat m)
unfolding read_memory_stat
read_memory_stat-Reads current (err e) m (u, r, c, r0, c0) =
    (u, ground (arith, entries-empty), ground (arith, entries-empty))
read_memory_stat-Reads current (ok text) m (u, r, c, r0, c0) =
    let s : MemoryScan = record { stats = m; have_anon = false; have_file = false } in
    let es = entries (lines text) in
    let (a, f, x, y) =
      fold_until-keeps (Lists m) scan_memory (scan_memory-Lists m) es s (r, c, refl, refl) in
    rw (read_memory_stat, scan_cgroup_key_value-fold_until scan_memory text s)
      (
        ground (arith, u),
        ground (arith, fold-anon es s, fold-rss es s),
        ground (arith, fold-file es s, fold-cache es s),
      )
