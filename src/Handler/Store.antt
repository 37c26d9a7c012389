-- ===== src/Handler/Store.antt =====
-- pkg/task/store.go: the Store of handlers. A handler is a pointer, named by a number.
pub mod Refine
pub mod Once
use nomad_driver_systemd.Prelude.{ℕ, String, List, [], ◌∷◌, ◌++◌, Option}
use nomad_driver_systemd.Prelude.Map.{Map, lookup, insert, delete}

abbrev pub Store : Type 0
Store = Map ℕ

unfoldable pub new_store : Store
new_store = []

unfoldable pub set : String → ℕ → Store → Store
set id handler ts = insert id handler ts

unfoldable pub get : String → Store → Option ℕ
get id ts = lookup id ts

unfoldable pub delete_task : String → Store → Store
delete_task id ts = delete id ts

abbrev pub handlers : Store → List ℕ
handlers [] = []
handlers ((_, handler) ∷ ts) = handler ∷ handlers ts

-- The handlers to stop, taken under the lock, and the emptied Store.
unfoldable pub stop_all : Store → List ℕ × Store
stop_all ts = (handlers ts, new_store)

-- One call of a method, in the order in which the calls get the lock.
pub data Call : Type 0 where
  sets : String → ℕ → Call
  deletes : String → Call
  gets : String → Call
  stops : Call

-- What a call returns: nothing, what Get found, or what Stop goes on to stop.
pub data Reply : Type 0 where
  done : Reply
  found : Option ℕ → Reply
  stopping : List ℕ → Reply

unfoldable pub step : Call → Store → Reply × Store
unfolding new_store set get delete_task stop_all
step (sets id handler) ts = (done, set id handler ts)
step (deletes id) ts = (done, delete_task id ts)
step (gets id) ts = (found (get id ts), ts)
step stops ts = let (hs, ts') = stop_all ts in (stopping hs, ts')

unfoldable pub run : List Call → Store → List Reply × Store
unfolding step
run [] ts = ([], ts)
run (c ∷ cs) ts = let (r, ts') = step c ts in let (rs, ts'') = run cs ts' in (r ∷ rs, ts'')
