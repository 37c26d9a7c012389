-- ===== src/Logx/Semconv.antt =====
-- pkg/logx/semconv/semconv.go: the attributes that this program logs.
use nomad_driver_systemd.Prelude.{String, Bool, Option}
use nomad_driver_systemd.Prelude.Int.{ℤ}
use nomad_driver_systemd.Units.{UnitState, TaskState}
use nomad_driver_systemd.Logx.{
  Attr, nil, cons, string, bool_attr, int_attr, stringer, duration, multi,
}

abbrev pub task_id_attr : String → Attr
task_id_attr id = string "nomad.task.id" id

-- A drivers.TaskState is a text, which Nomad's package spells.
abbrev pub task_state_attr : (TaskState → String) → TaskState → Attr
task_state_attr spell state = string "nomad.task.state" (spell state)

abbrev pub task_state_change : (TaskState → String) → TaskState → TaskState → Attr
task_state_change spell from to = multi (
    cons (string "nomad.task.state.from" (spell from))
      (cons (string "nomad.task.state.to" (spell to)) nil))

abbrev pub destroy_force : Bool → Attr
destroy_force force = bool_attr "nomad.task.destroy_force" force

abbrev pub unit_attr : String → Attr
unit_attr name = string "systemd.unit.name" name

-- A UnitState's String method gives it back.
abbrev pub unit_state_attr : Option UnitState → Attr
unit_state_attr state = stringer "systemd.unit.state" state

abbrev pub unit_cgroup : String → Attr
unit_cgroup path = string "systemd.unit.cgroup" path

abbrev pub unit_property : String → Attr
unit_property name = string "systemd.unit.property" name

module _ (duration_string : ℤ → String) where
  abbrev pub timeout_attr : ℤ → Attr
  timeout_attr t = duration duration_string "timeout" t

  abbrev pub retry_delay : ℤ → Attr
  retry_delay delay = duration duration_string "retry.delay" delay

abbrev pub retry_attempt : ℤ → Attr
retry_attempt n = int_attr "retry.attempt" n

abbrev pub file_path : String → Attr
file_path path = string "file.path" path
