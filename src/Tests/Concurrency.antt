-- ===== src/Tests/Concurrency.antt =====
-- Overlapping calls, the Store, wakes, polling, streams and shutdown at concrete inputs.
use nomad_driver_systemd.Prelude.{
  ◌⊎◌, ◌≤◌, String, true, false, List, [], ◌∷◌, none, some, ◌≡◌, ◌↔◌, inl, inr, refl, if◌then◌else◌,
}
use nomad_driver_systemd.Prelude.Map.{lookup, insert, lookup-insert_self}
use nomad_driver_systemd.Prelude.Int.{pos}
use nomad_driver_systemd.Errors.{ok, is_ok}
use nomad_driver_systemd.Units.{is_exited}
use nomad_driver_systemd.Handler.{Handler, new_handler}
use nomad_driver_systemd.Handler.Polling.{
  PollEvent, looks, cancelled, started, woken, ticked, poll_task_state, Seen, poll_task_state-Seen,
}
use nomad_driver_systemd.Handler.Store.{Call, sets, gets, stops, run, new_store}
use nomad_driver_systemd.Handler.Store.Refine.{Conforms, run-Conforms}
use nomad_driver_systemd.Handler.Store.Once.{times_set, times_stopped, run-times_stopped}
use nomad_driver_systemd.Driver.{Driver, new_driver, claim_unit}
use nomad_driver_systemd.Driver.Tasks.{start_task}
use nomad_driver_systemd.Driver.Recovery.{recover_task}
use nomad_driver_systemd.Driver.Teardown.{timed_out, stop_returned, destroy_task, stop_task}
use nomad_driver_systemd.Driver.Escalation.{Graceful, Escalates, stop_task_iff}
use nomad_driver_systemd.Driver.Stats.{timer_fired, stream_stats}
use nomad_driver_systemd.Driver.Stats.Stream.{stream_stats-destroy_task}
use nomad_driver_systemd.Driver.Shutdown.{stopping_handlers, teardown, shutdown, shutdown-refuses}
use nomad_driver_systemd.Driver.Overlap.{
  Calls, checked, holding, enters, claims, stores, claim, store_task, Reach, here, next,
}
use nomad_driver_systemd.Driver.Overlap.Exclusive.{no_calls, Reach-unshared}
use nomad_driver_systemd.Driver.Overlap.Covers.{Runs}
use nomad_driver_systemd.Driver.Overlap.Rpcs.{start, perform, perform-Runs}
use nomad_driver_systemd.Logx.{Attrs, nil, cons, string, multi, zero_attr, flatten}
use nomad_driver_systemd.Logx.Flatten.{is_empty, spread, named, leaves, flatten-leaves}
use nomad_driver_systemd.Tests.TestHost.{test_host}
use nomad_driver_systemd.Tests.Tasks.{
  dead, manager, no_managers, web_task, configured, dead_handle, test_host-ends,
}

abbrev attrs : Attrs
attrs = cons zero_attr (cons (multi (cons (string "a" "1") (cons (string "b" "2") nil))) nil)

flatten-leaves_example :
    flatten attrs ≡ (if is_empty attrs then none else some (spread (named (leaves attrs))))
flatten-leaves_example = flatten-leaves attrs

abbrev store_calls : List Call
store_calls = sets "t1" 7 ∷ gets "t1" ∷ stops ∷ gets "t1" ∷ stops ∷ []

run-Conforms_example : Conforms store_calls (λ id. none) (run store_calls new_store).0
run-Conforms_example = run-Conforms store_calls

run-times_stopped_example : times_stopped 7 (run store_calls new_store).0 ≤ times_set 7 store_calls
run-times_stopped_example = run-times_stopped 7 store_calls

abbrev polls : List (PollEvent ⦃h = test_host⦄)
polls = looks woken manager 20 ∷ looks ticked manager 30 ∷ cancelled ∷ []

poll_task_state-Seen_example :
    (is_exited (poll_task_state manager 10 polls dead).state ≡ true)
    ↔ Seen dead.unit dead.ended (looks started manager 10 ∷ polls)
unfolding new_handler
poll_task_state-Seen_example = poll_task_state-Seen manager 10 polls dead refl

abbrev managing : Driver
unfolding new_driver
managing = record (new_driver no_managers) {
  tasks = ("t1", dead) ∷ [];
  unit_owners = ("dead.service", "t1") ∷ [];
  systemd_mgr = some 0;
}

managing-dead : lookup "t1" managing.tasks ≡ some dead
unfolding lookup new_driver
managing-dead = refl

managed_by : managing.systemd_mgr ≡ some dead.units
unfolding new_handler new_driver
managed_by = refl

stop_task_iff_example : ((stop_task "t1" (pos 5) stop_returned managing 40).0 ≡ ok tt) ↔ (
    (th : Handler) × (lookup "t1" managing.tasks ≡ some th)
    × (Graceful (pos 5) stop_returned th managing 40
        ⊎ Escalates (pos 5) stop_returned th managing 40))
stop_task_iff_example = stop_task_iff "t1" (pos 5) stop_returned managing 40

stream_stats-destroy_task_example :
    stream_stats dead
      (timer_fired false true ∷ [])
      (destroy_task "t1" true timed_out managing 40).1
      50
    ≡ ([], true)
stream_stats-destroy_task_example =
    stream_stats-destroy_task "t1" true timed_out dead managing 40 managing-dead managed_by
      (inr refl) false true [] 50

nothing_left :
    lookup dead_handle.config.id (shutdown stopping_handlers configured 60).0.tasks ≡ none
unfolding shutdown teardown lookup
nothing_left = refl

shutdown-refuses_example :
    (is_ok (start_task web_task (shutdown stopping_handlers configured 60).0 70).0 ≡ false)
    × (is_ok (recover_task dead_handle (shutdown stopping_handlers configured 60).0 70).0 ≡ false)
shutdown-refuses_example =
    shutdown-refuses test_host-ends stopping_handlers configured 60 web_task dead_handle 70
      nothing_left

abbrev claimed_calls : Calls
claimed_calls =
    claim "t1" "dead.service"
      (record (no_calls no_managers) { flight = insert "t1" checked (no_calls no_managers).flight })

claimed_flight : lookup "t1" claimed_calls.flight ≡ some (holding dead.unit)
unfolding claim claim_unit new_driver lookup insert new_handler
claimed_flight = refl

stored_calls : Reach (no_calls no_managers) (store_task "t1" dead claimed_calls)
unfolding new_driver lookup insert
stored_calls =
    next (next (next here (enters "t1" refl refl)) (claims "t1" "dead.service" refl))
      (stores "t1" dead claimed_flight)

stored_dead : lookup "t1" (store_task "t1" dead claimed_calls).driver.tasks ≡ some dead
unfolding store_task
stored_dead = lookup-insert_self "t1" dead claimed_calls.driver.tasks

Reach-unshared_example : ◌≡◌ {A = String} "t1" "t1"
Reach-unshared_example =
    Reach-unshared no_managers stored_calls "t1" "t1" dead stored_dead
      (inl (dead, stored_dead, refl))

perform-Runs_example : Runs "t1" configured [] (perform (start web_task) configured 10)
unfolding lookup
perform-Runs_example = perform-Runs (start web_task) configured [] 10 refl
