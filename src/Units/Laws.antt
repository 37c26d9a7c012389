-- ===== src/Units/Laws.antt =====
-- What pkg/systemd/unit.go promises of unit states, exit results and timestamps.
use nomad_driver_systemd.Prelude.{
  ℕ, ◌≤◌, true, false, ◌≡◌, subst, sym, ◌↔◌, ◌≢◌, ◌⊎◌, inl, inr, none, some, arith, text-cases,
  Option-cases, ◌=?◌,
}
use nomad_driver_systemd.Prelude.Int.{pos, negsuc}
use nomad_driver_systemd.Units.{
  UnitState, is_terminal, is_active, is_transitioning, to_task_state, exited, running, unknown,
  active, inactive, failed, activating, deactivating, reloading, maintenance, ExitStatus,
  ExitResult, exit_result_from_status, cld_exited, cld_killed, cld_dumped, Variant, uint64, int64,
  int32, text, other, parse_timestamp_usec, max_int64,
}

-- A statement about every unit state: the seven that systemd defines, and one that is none of them.
pub state_cases {ℓ} :
    (P : UnitState → Type ℓ)
    → P activating
    → P deactivating
    → P reloading
    → P active
    → P failed
    → P inactive
    → P maintenance
    → ((s : UnitState)
        → (s =? activating) ≡ false
        → (s =? deactivating) ≡ false
        → (s =? reloading) ≡ false
        → (s =? active) ≡ false
        → (s =? failed) ≡ false
        → (s =? inactive) ≡ false
        → (s =? maintenance) ≡ false
        → P s)
    → (s : UnitState) → P s
state_cases P a d r u f i m rest s = elim (text-cases s activating) [
  | inl e ↦ subst P (sym e) a
  | inr na ↦ elim (text-cases s deactivating) [
    | inl e ↦ subst P (sym e) d
    | inr nd ↦ elim (text-cases s reloading) [
      | inl e ↦ subst P (sym e) r
      | inr nr ↦ elim (text-cases s active) [
        | inl e ↦ subst P (sym e) u
        | inr nu ↦ elim (text-cases s failed) [
          | inl e ↦ subst P (sym e) f
          | inr nf ↦ elim (text-cases s inactive) [
            | inl e ↦ subst P (sym e) i
            | inr ni ↦ elim (text-cases s maintenance) [
              | inl e ↦ subst P (sym e) m
              | inr nm ↦ rest s na nd nr nu nf ni nm
            ]
          ]
        ]
      ]
    ]
  ]
]

-- The task state is exited exactly for the terminal unit states and running exactly for the active
-- one; a unit state is not transitioning, or the task state is unknown.
pub to_task_state_classifies :
    (s : UnitState)
    → ((to_task_state s ≡ exited) ↔ (is_terminal s ≡ true))
      × ((to_task_state s ≡ running) ↔ (is_active s ≡ true))
      × ((is_transitioning s ≡ false) ⊎ (to_task_state s ≡ unknown))
unfolding to_task_state is_terminal is_active is_transitioning
to_task_state_classifies =
    state_cases _ (ground arith) (ground arith) (ground arith) (ground arith) (ground arith)
      (ground arith) (ground arith) (λ s a d r u f i m. ground arith)

-- The three si_codes of a terminated process.
abbrev pub Terminated : ExitStatus → Type 0
Terminated s = (s.code ≡ cld_exited) ⊎ (s.code ≡ cld_killed) ⊎ (s.code ≡ cld_dumped)

-- Either the process did not terminate, and there is no exit result; or it did, and there is one. Its
-- error is absent exactly on a voluntary exit with status 0; it reports the status of a voluntary
-- exit and no signal, and of a killed process exit code -1 and the signal.
exit_result_from_status_cases :
    (s : ExitStatus)
    → ((exit_result_from_status s ≡ none) × ¬ Terminated s)
      ⊎ ((r : ExitResult) × (exit_result_from_status s ≡ some r)
          × Terminated s
          × ((r.error ≡ none) ↔ ((s.code ≡ cld_exited) × (s.status ≡ pos 0)))
          × (((s.code ≡ cld_exited) × (r.exit_code ≡ s.status) × (r.signal ≡ pos 0))
              ⊎ ((s.code ≢ cld_exited) × (r.exit_code ≡ negsuc 0) × (r.signal ≡ s.status))))
unfolding exit_result_from_status
exit_result_from_status_cases s = elim (Option-cases (exit_result_from_status s)) [
  | inl n ↦ inl (n, λ t. ground arith)
  | inr (r, e) ↦ inr (r, e, ground arith, ground arith, ground arith)
]

-- A timestamp property is decoded as t exactly if it is an unsigned reading t that fits an int64, or
-- the signed reading t, which is not negative then.
pub parse_timestamp_usec_iff :
    (v : Variant) (t : ℕ)
    → (parse_timestamp_usec v ≡ some t) ↔ (((v ≡ uint64 t) × (t ≤ max_int64)) ⊎ (v ≡ int64 (pos t)))
unfolding parse_timestamp_usec
parse_timestamp_usec_iff (uint64 u) t = (λ e. ground arith, λ e. ground arith)
parse_timestamp_usec_iff (int64 (pos u)) t = (λ e. ground arith, λ e. ground arith)
parse_timestamp_usec_iff (int64 (negsuc u)) t = (λ e. ground arith, λ e. ground arith)
parse_timestamp_usec_iff (int32 u) t = (λ e. ground arith, λ e. ground arith)
parse_timestamp_usec_iff (text u) t = (λ e. ground arith, λ e. ground arith)
parse_timestamp_usec_iff other t = (λ e. ground arith, λ e. ground arith)
