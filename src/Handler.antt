-- ===== src/Handler.antt =====
-- pkg/task/task.go and pkg/task/state.go: the Handler that watches one task's unit, its state
-- machine and its exit result. A critical section under stateLock is one update.
pub mod Polling
pub mod Stopped
pub mod Store
pub mod Logs
pub mod Exit
pub mod Observe
use nomad_driver_systemd.Prelude.{
  ℕ, suc, String, Bool, true, false, Option, none, some, ◌≡◌, if◌then◌else◌,
}
use nomad_driver_systemd.Errors.{Result, ok, err}
use nomad_driver_systemd.Units.{
  UnitState, TaskState, running, exited, is_running, is_exited, to_task_state, is_failed,
  ExitResult, exit_result_from_status, clean_exit, failed_exit,
}
use nomad_driver_systemd.Host.{Host}
use nomad_driver_systemd.Manager.{Manager}
use nomad_driver_systemd.Manager.Jobs.{unit_state, unit_exit_status}

-- `units` names the Manager behind the unitController interface, `wake_ch` the wake channel, which
-- may be nil. `closes` counts the executions of close(waitCh), the second of which would panic;
-- `ended` tells that the Handler's context was cancelled, `watching` that its goroutines run. Times
-- are nanoseconds, and the zero time is none.
pub record Handler : Type 0 where
  pub task_id : String
  pub unit : String
  pub units : ℕ
  pub wake_ch : Option ℕ
  pub state : TaskState
  pub started_at : ℕ
  pub completed_at : Option ℕ
  pub exit_result : Option ExitResult
  pub exit_once : Bool
  pub closes : ℕ
  pub ended : Bool
  pub watching : Bool

-- Nomad's drivers.TaskStatus.
pub record TaskStatus : Type 0 where
  pub id : String
  pub name : String
  pub state : TaskState
  pub started_at : ℕ
  pub completed_at : Option ℕ
  pub exit_result : Option ExitResult

-- sync.Once around close(waitCh).
unfoldable pub close_wait_ch : Handler → Handler
close_wait_ch h = if h.exit_once then h else record h { exit_once = true; closes = suc h.closes }

unfoldable pub new_handler : String → String → ℕ → Option ℕ → TaskState → ℕ → Handler
unfolding close_wait_ch
new_handler task_id unit units wake_ch initial now =
    if is_exited initial then close_wait_ch th else th
  where
    th : Handler
    th = record {
      task_id = task_id;
      unit = unit;
      units = units;
      wake_ch = wake_ch;
      state = initial;
      started_at = now;
      completed_at = none;
      exit_result = none;
      exit_once = false;
      closes = 0;
      ended = false;
      watching = false;
    }

unfoldable pub set_exit_result : ExitResult → ℕ → Handler → Handler
set_exit_result r t h = record h { exit_result = some r; completed_at = some t }

unfoldable pub set_started_at : ℕ → Handler → Handler
set_started_at t h = record h { started_at = t }

unfoldable pub task_status : Handler → TaskStatus
task_status h = record {
  id = h.task_id;
  name = h.unit;
  state = h.state;
  started_at = h.started_at;
  completed_at = h.completed_at;
  exit_result = h.exit_result;
}

abbrev pub has_exited : Handler → Bool
has_exited h = is_exited h.state

abbrev pub is_task_running : Handler → Bool
is_task_running h = is_running h.state

-- waitCh is closed.
abbrev pub WaitClosed : Handler → Type 0
WaitClosed h = h.closes ≡ 1

-- Stop, with the goroutines that it waits for gone, and no check of theirs in flight: Stopped has the
-- other case.
unfoldable pub stop : Handler → Handler
stop h = record h { ended = true; watching = false }

-- handleStateChange up to the point where it releases the lock; the Boolean tells whether it goes
-- on to resolve and publish an exit.
unfoldable pub begin_state_change : UnitState → Handler → Handler × Bool
begin_state_change active_state h =
    let cst = to_task_state active_state in
    if is_exited h.state
    then (h, false)
    else if is_exited cst
    then (h, true)
    else (record h { state = cst }, false)

-- The second critical section of handleStateChange, which checks the state again.
unfoldable pub publish_exit : ExitResult → ℕ → Handler → Handler
unfolding close_wait_ch
publish_exit r t h =
    if is_exited h.state
    then h
    else close_wait_ch (record h { state = exited; completed_at = some t; exit_result = some r })

-- buildExitResult after its DBus call.
unfoldable pub resolve_exit : UnitState → Option ExitResult → ExitResult
resolve_exit active_state (some r) = r
resolve_exit active_state none = if is_failed active_state then failed_exit else clean_exit

module _ ⦃h : Host⦄ where
  open h use {World}

  -- The exit result that systemd knows of, if any; an error counts as none.
  unfoldable pub known_exit : Manager → Bool → String → World → Option ExitResult × World
  known_exit m ctx unit w =
      let (r, w') = unit_exit_status m ctx unit w in
      (elim r [ ok status ↦ exit_result_from_status status | err e ↦ none ], w')

  unfoldable pub build_exit_result : Manager → Handler → UnitState → World → ExitResult × World
  unfolding resolve_exit known_exit
  build_exit_result m th active_state w =
      let (r, w') = known_exit m th.ended th.unit w in (resolve_exit active_state r, w')

  unfoldable pub handle_state_change : Manager → UnitState → Handler → World → Handler × World
  unfolding begin_state_change publish_exit build_exit_result
  handle_state_change m active_state th w =
      let (th', exits) = begin_state_change active_state th in
      if exits
      then (let (r, w') = build_exit_result m th' active_state w in
          let (t, w'') = h.now w' in (publish_exit r t th', w''))
      else (th', w)

  unfoldable pub check_task_state : Manager → Handler → World → Bool × Handler × World
  unfolding handle_state_change
  check_task_state m th w =
      if is_exited th.state
      then (true, th, w)
      else (let (r, w') = unit_state m th.ended th.unit w in
          elim r [
            | err e ↦ (false, th, w')
            | ok state ↦
                let (th', w'') = handle_state_change m state th w' in
                (is_exited th'.state, th', w'')
          ])

  -- One round of pollTaskState: the first check, and the check after each wake or tick. The loop
  -- ends with the task, and with the Handler's context.
  unfoldable pub poll_round : Manager → Handler → World → Handler × World
  unfolding check_task_state
  poll_round m th w =
      if th.ended
      then (record th { watching = false }, w)
      else (let (done, th', w') = check_task_state m th w in
          (if done then record th' { watching = false } else th', w'))
