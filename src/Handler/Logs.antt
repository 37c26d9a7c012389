-- ===== src/Handler/Logs.antt =====
-- pkg/task/logs.go: where a log entry of a task goes, how it reads, and the retries on opening the
-- task's stdout.
pub mod Copy
use nomad_driver_systemd.Prelude.{
  refl, ℕ, zero, suc, ◌+◌, ◌*◌, ◌-◌, ◌≤◌, String, Bool, true, false, ◌||◌, Option, none, some, ◌≡◌,
  ◌⊎◌, inl, inr, arith, ◌=?◌, if◌then◌else◌, Bool-cases,
}
use nomad_driver_systemd.Manager.Entries.{LogEntry}

pub data Stream : Type 0 where
  stdout stderr : Stream

unfoldable pub map_priority_to_level : String → String
map_priority_to_level priority =
    if priority =? "0"
    then "EMERG"
    else if priority =? "1"
    then "ALERT"
    else if priority =? "2"
    then "CRIT"
    else if priority =? "3"
    then "ERR"
    else if priority =? "4"
    then "WARN"
    else if priority =? "5"
    then "NOTICE"
    else if priority =? "6"
    then "INFO"
    else if priority =? "7"
    then "DEBUG"
    else "UNKNOWN"

unfoldable pub writer : LogEntry → Stream
writer e =
    if e.priority =? "0" || e.priority =? "1" || e.priority =? "2" || e.priority =? "3"
    then stderr
    else stdout

-- The parts of the line that writeLogEntry prints: the level, the identifier if there is one, and
-- the message.
pub record Line : Type 0 where
  pub stream : Stream
  pub level : String
  pub identifier : Option String
  pub message : String

unfoldable pub write_log_entry : LogEntry → Line
write_log_entry e = record {
  stream = writer e;
  level = map_priority_to_level e.priority;
  identifier = if e.syslog_identifier =? "" then none else some e.syslog_identifier;
  message = e.message;
}

abbrev pub is_error_level : String → Bool
is_error_level l = l =? "EMERG" || l =? "ALERT" || l =? "CRIT" || l =? "ERR"

abbrev pub is_stderr : Stream → Bool
is_stderr stderr = true
is_stderr stdout = false

-- Entries whose priority is an error or worse, and the level of the rest.
level_cases :
    (P : Bool → String → Type 0)
    → P true "EMERG"
    → P true "ALERT"
    → P true "CRIT"
    → P true "ERR"
    → P false "WARN"
    → P false "NOTICE"
    → P false "INFO"
    → P false "DEBUG"
    → P false "UNKNOWN"
    → (e : LogEntry) → P (is_stderr (writer e)) (map_priority_to_level e.priority)
unfolding writer map_priority_to_level
level_cases P a b c d w n i g u e = elim (Bool-cases (e.priority =? "0")) [
  | inl q0 ↦ rw q0 a
  | inr n0 ↦ elim (Bool-cases (e.priority =? "1")) [
    | inl q1 ↦ rw n0 (rw q1 b)
    | inr n1 ↦ elim (Bool-cases (e.priority =? "2")) [
      | inl q2 ↦ rw n0 (rw n1 (rw q2 c))
      | inr n2 ↦ elim (Bool-cases (e.priority =? "3")) [
        | inl q3 ↦ rw n0 (rw n1 (rw n2 (rw q3 d)))
        | inr n3 ↦ elim (Bool-cases (e.priority =? "4")) [
          | inl q4 ↦ rw n0 (rw n1 (rw n2 (rw n3 (rw q4 w))))
          | inr n4 ↦ elim (Bool-cases (e.priority =? "5")) [
            | inl q5 ↦ rw n0 (rw n1 (rw n2 (rw n3 (rw n4 (rw q5 n)))))
            | inr n5 ↦ elim (Bool-cases (e.priority =? "6")) [
              | inl q6 ↦ rw n0 (rw n1 (rw n2 (rw n3 (rw n4 (rw n5 (rw q6 i))))))
              | inr n6 ↦ elim (Bool-cases (e.priority =? "7")) [
                | inl q7 ↦ rw n0 (rw n1 (rw n2 (rw n3 (rw n4 (rw n5 (rw n6 (rw q7 g)))))))
                | inr n7 ↦ rw n0 (rw n1 (rw n2 (rw n3 (rw n4 (rw n5 (rw n6 (rw n7 u)))))))
              ]
            ]
          ]
        ]
      ]
    ]
  ]
]

-- An entry goes to stderr exactly if the level on its line is error or worse.
pub write_log_entry-is_stderr :
    (e : LogEntry) → is_stderr (write_log_entry e).stream ≡ is_error_level (write_log_entry e).level
unfolding write_log_entry
write_log_entry-is_stderr =
    level_cases (λ b l. b ≡ is_error_level l) refl refl refl refl refl refl refl refl refl

abbrev pub max_stdout_open_retries : ℕ
max_stdout_open_retries = 5

-- In nanoseconds.
abbrev pub stdout_retry_backoff_unit : ℕ
stdout_retry_backoff_unit = 100 * 1000000

module _ {World : Type 0} (open_file : World → Bool × World) where
  -- Attempt i of the loop, with `left` attempts after it: whether the file was opened, the time slept
  -- and the world after it.
  unfoldable pub open_stdout : ℕ → ℕ → World → Bool × ℕ × World
  open_stdout i zero w = let (opened, w') = open_file w in (opened, 0, w')
  open_stdout i (suc left) w =
      let (opened, w') = open_file w in
      let (later, slept, w'') = open_stdout (suc i) left w' in
      if opened then (true, 0, w') else (later, (i + 1) * stdout_retry_backoff_unit + slept, w'')

-- The loop over the attempts: stdout is opened after at most a second of sleep, or after exactly a
-- second it is given up.
open_stdout_cases :
    {World : Type 0} (open_file : World → Bool × World) (w : World)
    → let (opened, slept, _) = open_stdout open_file 0 (max_stdout_open_retries - 1) w in
      ((opened ≡ true) × (slept ≤ 1000000000)) ⊎ ((opened ≡ false) × (slept ≡ 1000000000))
unfolding open_stdout
open_stdout_cases open_file w = ground arith
