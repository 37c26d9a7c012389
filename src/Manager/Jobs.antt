-- ===== src/Manager/Jobs.antt =====
-- pkg/systemd/unit.go: the operations on one unit that go to systemd over DBus.
use nomad_driver_systemd.Prelude.{ℕ, String, Bool, Option, none, some, ◌=?◌, ◌==◌, if◌then◌else◌}
use nomad_driver_systemd.Prelude.Map.{lookup}
use nomad_driver_systemd.Errors.{Result, ok, err, message, job_failed, wrap}
use nomad_driver_systemd.Units.{
  UnitState, ExitStatus, as_text, as_int32, parse_unit_state, parse_timestamp_usec,
}
use nomad_driver_systemd.Host.{
  Host, OpContext, JobEvent, posted, ended, Query, ◌>>=◌, return, fail, lift, on_error,
}
use nomad_driver_systemd.Manager.{
  Manager, get_conn, op_context, wake_unit, job_timeout, property_timeout,
}

unfoldable pub job_result : String → String → JobEvent → Result (Unit {0})
job_result action unit (posted result) =
    if result =? "done" then ok tt else err (job_failed action unit result)
job_result action unit (ended e) = err (wrap "waiting for job result" e)

module _ ⦃h : Host⦄ where
  open h use {World}

  unfoldable pub wait_job_result : OpContext → String → String → ℕ → Query (Unit {0})
  unfolding job_result
  wait_job_result ctx unit action job w =
      let (event, w') = h.await_job ctx job w in (job_result action unit event, w')

  unfoldable pub start_unit : Manager → Bool → String → Query (Unit {0})
  start_unit m ctx unit w =
      (do
        conn ← lift (get_conn m w)
        job ←
            on_error "enqueue start job" (h.enqueue_start (op_context m ctx job_timeout) conn unit)
        wait_job_result (op_context m ctx job_timeout) unit "start" job)
        w

  stop_job : Manager → Bool → String → Query (Unit {0})
  stop_job m ctx unit w =
      (do
        conn ← lift (get_conn m w)
        job ← on_error "enqueue stop job" (h.enqueue_stop (op_context m ctx job_timeout) conn unit)
        wait_job_result (op_context m ctx job_timeout) unit "stop" job)
        w

  -- The deferred wakeUnit runs on every return.
  unfoldable pub stop_unit : Manager → Bool → String → World → Result (Unit {0}) × Manager × World
  unfolding stop_job
  stop_unit m ctx unit w = let (r, w') = stop_job m ctx unit w in (r, wake_unit unit m, w')

  kill_signal : Manager → Bool → String → Query (Unit {0})
  kill_signal m ctx unit w =
      (do conn ← lift (get_conn m w); h.kill_all (op_context m ctx property_timeout) conn unit) w

  unfoldable pub kill_unit : Manager → Bool → String → World → Result (Unit {0}) × Manager × World
  unfolding kill_signal
  kill_unit m ctx unit w = let (r, w') = kill_signal m ctx unit w in (r, wake_unit unit m, w')

  -- A failed type assertion, `v, ok := x.(T)`.
  abbrev assert : {A : Type 0} → Option A → String → Query A
  assert none s = fail (message s)
  assert (some a) s = return a

  unfoldable pub unit_state : Manager → Bool → String → Query UnitState
  unit_state m ctx unit w =
      (do
        conn ← lift (get_conn m w)
        prop ←
            on_error "get ActiveState property"
              (h.get_unit_property (op_context m ctx property_timeout) conn unit "ActiveState")
        state ← assert (as_text (some prop)) "ActiveState property has unexpected type"
        return (parse_unit_state state))
        w

  -- The start time, in microseconds of Unix time.
  unfoldable pub unit_start_time : Manager → Bool → String → Query ℕ
  unit_start_time m ctx unit w =
      (do
        conn ← lift (get_conn m w)
        prop ← on_error "get ActiveEnterTimestamp property" (
            h.get_unit_property (op_context m ctx property_timeout) conn unit
              "ActiveEnterTimestamp")
        usec ←
            assert (parse_timestamp_usec prop) "ActiveEnterTimestamp property has unexpected type"
        if usec == 0 then fail (message "unit has never been active") else return usec)
        w

  unfoldable pub unit_exit_status : Manager → Bool → String → Query ExitStatus
  unit_exit_status m ctx unit w =
      (do
        conn ← lift (get_conn m w)
        props ←
            on_error "get service properties"
              (h.get_service_properties (op_context m ctx property_timeout) conn unit)
        code ←
            assert (as_int32 (lookup "ExecMainCode" props))
              "ExecMainCode property has unexpected type"
        status ←
            assert (as_int32 (lookup "ExecMainStatus" props))
              "ExecMainStatus property has unexpected type"
        return (record { code = code; status = status }))
        w
