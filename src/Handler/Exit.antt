-- ===== src/Handler/Exit.antt =====
-- The exit of a task, pkg/task/state.go: published once, with its result, and never taken back,
-- whatever the order of the critical sections of concurrent observers.
use nomad_driver_systemd.Prelude.{
  some, ℕ, ◌≤◌, String, Bool, true, Option, none, ◌≡◌, ◌≢◌, refl, sym, subst, ◌↔◌, arith,
}
use nomad_driver_systemd.Units.{UnitState, TaskState, exited, is_exited, ExitResult}
use nomad_driver_systemd.Handler.{
  Handler, new_handler, set_exit_result, set_started_at, stop, begin_state_change, publish_exit,
}

pub record Sound (h : Handler) : Type 0 where
  pub closed : (h.state ≡ exited) ↔ (h.closes ≡ 1)
  pub open_or_closed : h.closes ≤ 1
  pub once : (h.exit_once ≡ true) ↔ (h.closes ≡ 1)
  pub result : (h.state ≡ exited) ↔ (h.exit_result ≢ none)
  pub completed : (h.state ≡ exited) ↔ (h.completed_at ≢ none)

-- The critical sections of the goroutines that share a handler, in any order; `observes` and
-- `publishes` are the two of handleStateChange, from any number of callers. SetExitResult, by its
-- contract, is for a task that has exited.
pub data Section (h : Handler) : Handler → Type 0 where
  observes : (s : UnitState) → Section h (begin_state_change s h).0
  publishes : (r : ExitResult) (t : ℕ) → Section h (publish_exit r t h)
  records : (r : ExitResult) (t : ℕ) → is_exited h.state ≡ true → Section h (set_exit_result r t h)
  starts : (t : ℕ) → Section h (set_started_at t h)
  stops : Section h (stop h)
  watches : (b : Bool) → Section h (record h { watching = b })

pub data Sections (h : Handler) : Handler → Type 0 where
  done : Sections h h
  then : {k l : Handler} → Sections h k → Section k l → Sections h l

pub new_handler-Sound :
    (id unit : String) (m : ℕ) (c : Option ℕ) (s : TaskState) (t : ℕ)
    → s ≢ exited
    → Sound (new_handler id unit m c s t)
unfolding new_handler
new_handler-Sound id unit m c s t n = ground arith

-- A handler that is made for an exited task is sound once it has its exit result.
pub recovered-Sound :
    (id unit : String) (m : ℕ) (c : Option ℕ) (t : ℕ) (r : ExitResult) (t' : ℕ)
    → Sound (set_exit_result r t' (new_handler id unit m c exited t))
unfolding new_handler set_exit_result
recovered-Sound id unit m c t r t' = ground arith

pub Section-Sound : {h k : Handler} → Section h k → Sound h → Sound k
unfolding begin_state_change publish_exit set_started_at set_exit_result stop
Section-Sound (observes s) v = ground arith
Section-Sound (publishes r t) v = ground arith
Section-Sound (records r t x) v = ground arith
Section-Sound (starts t) v = ground arith
Section-Sound stops v = ground arith
Section-Sound (watches b) v = ground arith

-- After any critical sections of a sound handler, SetExitResult among them once the task has exited:
-- waitCh is closed exactly if the task has exited, was closed at most once, and an exit result and a
-- completion time are there exactly if the task has exited.
pub Sections-Sound : {h k : Handler} → Sound h → Sections h k → Sound k
Sections-Sound v done = v
Sections-Sound v (then r s) = Section-Sound s (Sections-Sound v r)

-- What the last SetExitResult of the sections has set, if there is one.
abbrev pub last_recorded : {h k : Handler} → Sections h k → Option (ExitResult × ℕ)
last_recorded done = none
last_recorded (then r (observes s)) = last_recorded r
last_recorded (then r (publishes x t)) = last_recorded r
last_recorded (then r (records x t e)) = some (x, t)
last_recorded (then r (starts t)) = last_recorded r
last_recorded (then r stops) = last_recorded r
last_recorded (then r (watches b)) = last_recorded r

-- A handler has exited, was closed as often as h, and has the exit result and completion time that
-- were recorded, or else those of h.
abbrev pub Frozen : Option (ExitResult × ℕ) → Handler → Handler → Type 0
Frozen o h k =
    (k.state ≡ exited)
    × (k.exit_result ≡ elim o [ none ↦ h.exit_result | some (r, t) ↦ some r ])
    × (k.completed_at ≡ elim o [ none ↦ h.completed_at | some (r, t) ↦ some t ])
    × (k.closes ≡ h.closes)

observes-exited : (s : UnitState) (k : Handler) → k.state ≡ exited → (begin_state_change s k).0 ≡ k
unfolding begin_state_change
observes-exited s k e = rw (e, begin_state_change) refl

publishes-exited :
    (r : ExitResult) (t : ℕ) (k : Handler) → k.state ≡ exited → publish_exit r t k ≡ k
unfolding publish_exit
publishes-exited r t k e = rw (e, publish_exit) refl

-- Exited is final: later critical sections change neither the state nor the number of times that
-- waitCh was closed; and the exit result and the completion time are those that the last SetExitResult
-- among them has set, and unchanged if there is none.
pub Sections-exited :
    {h k : Handler} → h.state ≡ exited → (s : Sections h k) → Frozen (last_recorded s) h k
unfolding set_started_at set_exit_result stop
Sections-exited {h} e done = (e, refl, refl, refl)
Sections-exited {h} e (then r (observes s)) =
    let v = Sections-exited e r in
    subst (Frozen (last_recorded r) h) (sym (observes-exited s _ v.0)) v
Sections-exited {h} e (then r (publishes x t)) =
    let v = Sections-exited e r in
    subst (Frozen (last_recorded r) h) (sym (publishes-exited x t _ v.0)) v
Sections-exited {h} e (then r (records x t q)) =
    let (a, b, c, d) = Sections-exited e r in (a, refl, refl, d)
Sections-exited {h} e (then r (starts t)) = Sections-exited e r
Sections-exited {h} e (then r stops) = Sections-exited e r
Sections-exited {h} e (then r (watches b)) = Sections-exited e r
