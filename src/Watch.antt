-- ===== src/Watch.antt =====
-- pkg/task/state.go and pkg/systemd/unit.go together: from the change of a unit to the exit of its
-- task, with the notifications, the wake channel and the polling loop in any order.
pub mod Awake
pub mod Spares
pub mod Quick
pub mod Progress
pub mod Registered
pub mod Started
pub mod Recovered
pub mod Reached
pub mod Listing
pub mod Background
pub mod Renewed
pub mod Kept
pub mod Tracked
use nomad_driver_systemd.Prelude.{
  ℕ, ◌==◌, String, Bool, true, false, ◌||◌, List, ◌∷◌, ◌++◌, [], ◌≡◌, ◌=?◌, if◌then◌else◌,
}
use nomad_driver_systemd.Errors.{Error, ok, err}
use nomad_driver_systemd.Units.{UnitState, is_terminal, is_exited}
use nomad_driver_systemd.Host.{Host}
use nomad_driver_systemd.Manager.{Manager, wake_unit, update}
use nomad_driver_systemd.Manager.Jobs.{unit_state}
use nomad_driver_systemd.Manager.Steps as Managers
use nomad_driver_systemd.Handler.{Handler, handle_state_change}

-- Where pollTaskState stands: before its lookup of the unit's state, with the answer in hand, in its
-- select, or returned.
pub data Phase : Type 0 where
  looking : Phase
  handling : UnitState → Phase
  waiting finished : Phase

-- `terminal` tells whether the unit is in a terminal state; `queued` are the notifications that
-- propertiesDispatchLoop has not received yet; `unsure` tells that, since the loop last had an
-- answer, a lookup has failed or a notification was lost.
pub record Watch : Type 0 where
  pub manager : Manager
  pub handler : Handler
  pub terminal : Bool
  pub queued : List String
  pub phase : Phase
  pub unsure : Bool

-- The critical sections of the Manager that leave the unit registered and take no wake off its
-- channel c.
abbrev pub Spares : String → ℕ → {m n : Manager} → Managers.Step m n → Type 0
Spares unit c (Managers.enters v) = (v =? unit) ≡ false
Spares unit c (Managers.unregisters v) = (v =? unit) ≡ false
Spares unit c (Managers.receives d) = ◌≡◌ {A = Bool} (d == c) false
Spares unit c Managers.shuts = ⊥
Spares unit c (Managers.caches _ _ _) = Unit
Spares unit c (Managers.wakes _) = Unit
Spares unit c (Managers.attaches _) = Unit
Spares unit c (Managers.leaves _ _) = Unit
Spares unit c (Managers.reconnects _) = Unit
Spares unit c (Managers.samples _ _ _ _) = Unit

module _ ⦃h : Host⦄ where
  open h use {World}

  -- handleStateChange, and the end of checkTaskState.
  unfoldable pub handled : UnitState → World → Watch → Watch
  handled u w s =
      let th = (handle_state_change s.manager u s.handler w).0 in
      record s { handler = th; phase = if is_exited th.state then finished else waiting }

module _ ⦃h : Host⦄ (c : ℕ) where
  open h use {World}

  -- A change of the unit's state is reported, as are changes of other properties and of other units;
  -- a report is received, in order, or lost with a connection or for want of room. The answer to a
  -- lookup is the state that the unit has then.
  pub data Step (s : Watch) : Watch → Type 0 where
    changes :
        (b : Bool) → Step s (record s { terminal = b; queued = s.queued ++ s.handler.unit ∷ [] })
    reports : (unit : String) → Step s (record s { queued = s.queued ++ unit ∷ [] })
    dispatches :
        (unit : String) (rest : List String)
        → s.queued ≡ unit ∷ rest
        → Step s (record s { queued = rest; manager = wake_unit unit s.manager })
    loses :
        (unit : String) (rest : List String)
        → s.queued ≡ unit ∷ rest
        → Step s (record s { queued = rest; unsure = true })
    works :
        {m : Manager} (t : Managers.Step s.manager m)
        → Spares s.handler.unit c t
        → Step s (record s { manager = m })
    receives :
        s.phase ≡ waiting
        → s.manager.pending c ≡ true
        → Step s (record s {
          manager = record s.manager { pending = update s.manager.pending c false };
          phase = looking;
        })
    ticks : s.phase ≡ waiting → Step s (record s { phase = looking })
    asks :
        (w : World) (u : UnitState)
        → s.phase ≡ looking
        → is_exited s.handler.state ≡ false
        → (unit_state s.manager s.handler.ended s.handler.unit w).0 ≡ ok u
        → is_terminal u ≡ s.terminal
        → Step s (record s { phase = handling u; unsure = false })
    fails :
        (w : World) (e : Error)
        → s.phase ≡ looking
        → is_exited s.handler.state ≡ false
        → (unit_state s.manager s.handler.ended s.handler.unit w).0 ≡ err e
        → Step s (record s { phase = waiting; unsure = true })
    handles : (w : World) (u : UnitState) → s.phase ≡ handling u → Step s (handled u w s)
    knows :
        s.phase ≡ looking
        → is_exited s.handler.state ≡ true
        → Step s (record s { phase = finished })

  pub data Reach (s : Watch) : Watch → Type 0 where
    here : Reach s s
    next : {t u : Watch} → Reach s t → Step t u → Reach s u

  -- A run that neither waits for the ticker, nor fails a lookup, nor loses a report, with no other
  -- work in between.
  abbrev pub Prompt : {s t : Watch} → Step s t → Type 0
  Prompt (changes _) = ⊥
  Prompt (reports _) = ⊥
  Prompt (dispatches _ _ _) = Unit
  Prompt (loses _ _ _) = ⊥
  Prompt (works _ _) = ⊥
  Prompt (receives _ _) = Unit
  Prompt (ticks _) = ⊥
  Prompt (asks _ _ _ _ _ _) = Unit
  Prompt (fails _ _ _ _ _) = ⊥
  Prompt (handles _ _ _) = Unit
  Prompt (knows _ _) = Unit

  abbrev pub AllPrompt : {s t : Watch} → Reach s t → Type 0
  AllPrompt here = Unit
  AllPrompt (next r st) = AllPrompt r × Prompt st

  -- The steps of the two loops themselves: the unit does not change, nothing is reported or lost, no
  -- lookup fails, and the Manager does no other work.
  abbrev pub Own : {s t : Watch} → Step s t → Type 0
  Own (changes _) = ⊥
  Own (reports _) = ⊥
  Own (dispatches _ _ _) = Unit
  Own (loses _ _ _) = ⊥
  Own (works _ _) = ⊥
  Own (receives _ _) = Unit
  Own (ticks _) = Unit
  Own (asks _ _ _ _ _ _) = Unit
  Own (fails _ _ _ _ _) = ⊥
  Own (handles _ _ _) = Unit
  Own (knows _ _) = Unit

  abbrev pub AllOwn : {s t : Watch} → Reach s t → Type 0
  AllOwn here = Unit
  AllOwn (next r st) = AllOwn r × Own st

-- What will still make the loop look at the unit, or has shown it the unit's end.
abbrev pub reported : String → List String → Bool
reported unit [] = false
reported unit (v ∷ rest) = v =? unit || reported unit rest

abbrev pub looks_or_knows : Phase → Bool
looks_or_knows looking = true
looks_or_knows (handling u) = is_terminal u
looks_or_knows waiting = false
looks_or_knows finished = false
