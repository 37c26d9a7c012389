-- ===== src/Manager/Cancelling.antt =====
-- pkg/systemd: the journal readers of a Manager and their cancel functions, which run outside the lock:
-- RegisterUnit and UnregisterUnit of unit.go, StreamLogs and startJournalReader of journal.go, and Stop
-- of systemd.go, from one access to the next, with all other calls in between.
pub mod Moves
pub mod Invariant
use nomad_driver_systemd.Prelude.{
  ℕ, suc, ◌≤◌, ◌<◌, ltb, ◌==◌, ◌||◌, String, Bool, true, false, Option, none, some, ◌≡◌, ◌⊎◌, refl,
  sym, ◌∙◌, arith, eq_iff, inl, inr, ◌=?◌, if◌then◌else◌, subst, Option-cases, Bool-cases, [], ◌≢◌,
  ap,
}
use nomad_driver_systemd.Prelude.Map.{lookup, lookup-insert}
use nomad_driver_systemd.Manager.{
  UnitEntry, Manager, new_manager, unit_locked, enter_locked, unregister_locked, start_locked,
  update, reader_of, enter_unit, unregister_unit, wake_unit, store_control_group, set_tracker,
}
use nomad_driver_systemd.Manager.Registry.{
  reader, reader-enter_unit, reader-unregister_unit, reader-store_control_group, reader-set_tracker,
}
use nomad_driver_systemd.Manager.Steps as Managers

-- Where a reader's cancel function is: its context is not made; StreamLogs has made it and is about to
-- register the reader; the registry keeps it; it is taken and about to be called; it was called.
pub data Stage : Type 0 where
  unissued starting kept due called : Stage

pub record Readers : Type 0 where
  pub manager : Manager
  pub stage : ℕ → Stage

abbrev pub at_stage : ℕ → Stage → (ℕ → Stage) → ℕ → Stage
at_stage r s f j = if j == r then s else f j

-- The cancel function that an entry had, if any, is taken.
abbrev pub take : Option ℕ → (ℕ → Stage) → ℕ → Stage
take none f = f
take (some r) f = at_stage r due f

abbrev pub retire : Stage → Stage
retire kept = due
retire s = s

-- The other critical sections of the Manager.
abbrev pub Apart : {m n : Manager} → Managers.Step m n → Type 0
Apart (Managers.enters _) = ⊥
Apart (Managers.unregisters _) = ⊥
Apart (Managers.attaches _) = ⊥
Apart Managers.shuts = ⊥
Apart (Managers.receives _) = Unit
Apart (Managers.caches _ _ _) = Unit
Apart (Managers.wakes _) = Unit
Apart (Managers.leaves _ _) = Unit
Apart (Managers.reconnects _) = Unit
Apart (Managers.samples _ _ _ _) = Unit

-- `ends` is the cancellation of the Manager's own context, which ends those derived from it; `stops` is
-- Stop's critical section, after it, which takes the cancel functions of all units.
pub data Step (s : Readers) : Readers → Type 0 where
  enters :
      (unit : String)
      → Step s (record {
        manager = enter_locked unit s.manager;
        stage = take (reader_of (unit_locked s.manager unit)) s.stage;
      })
  unregisters :
      (unit : String)
      → Step s (record {
        manager = unregister_locked unit s.manager;
        stage = take (reader_of (unit_locked s.manager unit)) s.stage;
      })
  issues : Step s (record {
    manager = record s.manager {
      next_reader = suc s.manager.next_reader;
      cancelled = update s.manager.cancelled s.manager.next_reader s.manager.shut_down;
    };
    stage = at_stage s.manager.next_reader starting s.stage;
  })
  starts :
      (unit : String) (r : ℕ) (st : UnitEntry)
      → s.stage r ≡ starting
      → unit_locked s.manager unit ≡ some st
      → s.manager.stopping ≡ false
      → Step s (record {
        manager = start_locked unit r st s.manager;
        stage = at_stage r kept (take st.cancel_journal s.stage);
      })
  refuses :
      (unit : String) (r : ℕ)
      → s.stage r ≡ starting
      → (unit_locked s.manager unit ≡ none) ⊎ (s.manager.stopping ≡ true)
      → Step s (record s { stage = at_stage r due s.stage })
  cancels :
      (r : ℕ)
      → s.stage r ≡ due
      → Step s (record {
        manager = record s.manager { cancelled = update s.manager.cancelled r true };
        stage = at_stage r called s.stage;
      })
  ends : Step s (record s {
    manager = record s.manager {
      shut_down = true;
      cancelled = λ r. ltb r s.manager.next_reader || s.manager.cancelled r;
    };
  })
  stops :
      s.manager.shut_down ≡ true
      → Step s (record {
        manager = record s.manager { stopping = true; units = [] };
        stage = λ r. retire (s.stage r);
      })
  works :
      {m : Manager} (t : Managers.Step s.manager m) → Apart t → Step s (record s { manager = m })

pub data Reach (s : Readers) : Readers → Type 0 where
  here : Reach s s
  next : {t u : Readers} → Reach s t → Step t u → Reach s u

abbrev pub no_readers : ℕ → Readers
no_readers c = record { manager = new_manager c; stage = λ r. unissued }
