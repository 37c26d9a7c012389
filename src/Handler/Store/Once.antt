-- ===== src/Handler/Store/Once.antt =====
-- pkg/task's Store hands each handler to at most one Stop.
use nomad_driver_systemd.Prelude.{ℕ, ◌+◌, ◌≤◌, String, List, [], ◌∷◌, arith, ◌==◌, if◌then◌else◌}
use nomad_driver_systemd.Prelude.Map.{insert, delete}
use nomad_driver_systemd.Handler.Store.{
  Store, Call, sets, deletes, gets, stops, Reply, stopping, step, run, handlers, new_store, set,
  delete_task, stop_all,
}

abbrev pub count : ℕ → List ℕ → ℕ
count h [] = 0
count h (x ∷ xs) = (if x == h then 1 else 0) + count h xs

-- How often a handler was stored, and how often a Stop went on to stop it.
abbrev pub times_set : ℕ → List Call → ℕ
times_set h [] = 0
times_set h (sets _ x ∷ cs) = (if x == h then 1 else 0) + times_set h cs
times_set h (_ ∷ cs) = times_set h cs

abbrev pub times_stopped : ℕ → List Reply → ℕ
times_stopped h [] = 0
times_stopped h (stopping hs ∷ rs) = count h hs + times_stopped h rs
times_stopped h (_ ∷ rs) = times_stopped h rs

count-insert :
    (h : ℕ) (k : String) (x : ℕ) (ts : Store)
    → count h (handlers (insert k x ts)) ≤ (if x == h then 1 else 0) + count h (handlers ts)
unfolding insert
count-insert h k x [] = ground arith
count-insert h k x ((id, y) ∷ ts) = ground (arith, count-insert h k x ts)

count-delete :
    (h : ℕ) (k : String) (ts : Store) → count h (handlers (delete k ts)) ≤ count h (handlers ts)
unfolding delete
count-delete h k [] = omega arith
count-delete h k ((id, y) ∷ ts) = ground (arith, count-delete h k ts)

run-times :
    (h : ℕ) (cs : List Call) (ts : Store)
    → times_stopped h (run cs ts).0 + count h (handlers (run cs ts).1)
      ≤ times_set h cs + count h (handlers ts)
unfolding run step set delete_task stop_all new_store
run-times h [] ts = omega arith
run-times h (sets k x ∷ cs) ts =
    omega (arith, run-times h cs (insert k x ts), count-insert h k x ts)
run-times h (deletes k ∷ cs) ts = omega (arith, run-times h cs (delete k ts), count-delete h k ts)
run-times h (gets k ∷ cs) ts = omega (arith, run-times h cs ts)
run-times h (stops ∷ cs) ts = omega (arith, run-times h cs [])

-- In any sequence of calls on a new Store, each handler is stopped at most as often as it was set:
-- one that is set once is stopped at most once, however many Stops there are.
pub run-times_stopped :
    (h : ℕ) (cs : List Call) → times_stopped h (run cs new_store).0 ≤ times_set h cs
unfolding new_store
run-times_stopped h cs = omega (arith, run-times h cs new_store)
