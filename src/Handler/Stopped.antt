-- ===== src/Handler/Stopped.antt =====
-- pkg/task/task.go: Stop, which cancels the Handler's context and waits for its polling, at any point
-- of pollTaskState.
use nomad_driver_systemd.Prelude.{ℕ, true, false, Option, none, some, List, ◌≡◌, ◌⊎◌, if◌then◌else◌}
use nomad_driver_systemd.Units.{UnitState, exited, is_exited, is_terminal, to_task_state}
use nomad_driver_systemd.Host.{Host}
use nomad_driver_systemd.Manager.{Manager}
use nomad_driver_systemd.Handler.{Handler, stop, handle_state_change, build_exit_result}
use nomad_driver_systemd.Handler.Polling.{PollEvent, poll}

-- Stop up to its wait.
abbrev pub cancel_context : Handler → Handler
cancel_context th = record th { ended = true }

abbrev pub unwatched : Handler → Handler
unwatched th = record th { watching = false }

module _ ⦃h : Host⦄ where
  open h use {World}

  -- What is left of the polling loop: it may have the answer to a lookup in hand, with the Manager
  -- and the world that handleStateChange finds; then it receives events.
  unfoldable pub resume : Option (UnitState × Manager × World) → List PollEvent → Handler → Handler
  resume none events th = poll events th
  resume (some (u, m, w)) events th =
      let th' = (handle_state_change m u th w).0 in
      let rest = poll events th' in if is_exited th'.state then unwatched th' else rest

  -- Stop, at that point of the loop.
  abbrev pub stop_at : Option (UnitState × Manager × World) → List PollEvent → Handler → Handler
  stop_at o events th = unwatched (resume o events (cancel_context th))

  -- What Stop leaves: the Handler as it was, its context cancelled and its goroutines gone; but an
  -- answer that the loop has in hand when the context ends is still taken over.
  abbrev pub StopOutcome : Option (UnitState × Manager × World) → List PollEvent → Handler → Type 0
  StopOutcome none events th = stop_at none events th ≡ stop th
  StopOutcome (some (u, m, w)) events th =
      let left = stop_at (some (u, m, w)) events th in
      ((is_exited th.state ≡ true) × (left ≡ stop th))
      ⊎ ((is_exited th.state ≡ false)
          × (((is_terminal u ≡ false) × (left ≡ record (stop th) { state = to_task_state u }))
              ⊎ ((is_terminal u ≡ true)
                  × ((t : ℕ) × (left ≡ record (stop th) {
                    state = exited;
                    completed_at = some t;
                    exit_result = some (build_exit_result m (cancel_context th) u w).0;
                    exit_once = true;
                    closes = 1;
                  })))))

  -- The rest of the loop, from the Handler that the answer in hand leaves.
  after : List PollEvent → Handler → Handler
  after events k = unwatched (if is_exited k.state then unwatched k else poll events k)
