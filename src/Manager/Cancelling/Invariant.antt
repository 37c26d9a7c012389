-- ===== src/Manager/Cancelling/Invariant.antt =====
-- The journal readers of pkg/systemd's Manager: what holds in every state.
use nomad_driver_systemd.Prelude.{
  ℕ, String, true, none, some, ◌≡◌, refl, ◌∙◌, arith, eq_iff, inl, inr, ◌=?◌, if◌then◌else◌, subst,
  ◌≢◌, ap,
}
use nomad_driver_systemd.Prelude.Map.{lookup, lookup-insert}
use nomad_driver_systemd.Manager.{
  UnitEntry, Manager, new_manager, unit_locked, enter_locked, unregister_locked, start_locked,
  update, reader_of, enter_unit, unregister_unit, wake_unit, store_control_group, set_tracker,
}
use nomad_driver_systemd.Manager.Registry.{
  reader, reader-enter_unit, reader-unregister_unit, reader-store_control_group, reader-set_tracker,
}
use nomad_driver_systemd.Manager.Steps as Managers
use nomad_driver_systemd.Manager.Cancelling.{
  Stage, unissued, starting, kept, due, called, Readers, at_stage, take, retire, Step, enters,
  unregisters, issues, starts, refuses, cancels, ends, stops, works, Reach, here, next, no_readers,
}
use nomad_driver_systemd.Manager.Cancelling.Moves.{
  Tidy, take_cases, Tidy-same, Tidy-drop, issues-Tidy, Tidy-attach, Tidy-move,
}

retire_cases :
    (s : Stage)
    → (retire s ≢ kept)
      × (retire s ≡ unissued → s ≡ unissued)
      × (retire s ≡ called → s ≡ called)
      × (s ≡ unissued → retire s ≡ unissued)
      × (s ≡ called → retire s ≡ called)
retire_cases unissued = ((λ e. cc), (λ e. refl), (λ e. cc), (λ e. refl), (λ e. cc))
retire_cases starting = ((λ e. cc), (λ e. cc), (λ e. cc), (λ e. cc), (λ e. cc))
retire_cases kept = ((λ e. cc), (λ e. cc), (λ e. cc), (λ e. cc), (λ e. cc))
retire_cases due = ((λ e. cc), (λ e. cc), (λ e. cc), (λ e. cc), (λ e. cc))
retire_cases called = ((λ e. cc), (λ e. cc), (λ e. refl), (λ e. cc), (λ e. refl))

reader-start_locked :
    (unit : String) (r : ℕ) (st : UnitEntry) (m : Manager) (u : String)
    → reader (start_locked unit r st m) u ≡ (if unit =? u then some r else reader m u)
unfolding reader
reader-start_locked unit r st m u =
    ground (arith, lookup-insert unit u (record st { cancel_journal = some r }) m.units)

reader-found :
    (m : Manager) (unit : String) (st : UnitEntry)
    → unit_locked m unit ≡ some st
    → reader m unit ≡ st.cancel_journal
unfolding reader
reader-found m unit st e = ap reader_of e

reader-unregister_locked :
    (unit : String) (m : Manager) (u : String)
    → reader (unregister_locked unit m) u ≡ (if unit =? u then none else reader m u)
unfolding reader unregister_unit
reader-unregister_locked unit m u = reader-unregister_unit unit m u

started-Tidy :
    (unit : String) (r : ℕ) (st : UnitEntry) (s : Readers)
    → s.stage r ≡ starting
    → unit_locked s.manager unit ≡ some st
    → Tidy s
    → Tidy (record {
      manager = start_locked unit r st s.manager;
      stage = at_stage r kept (take st.cancel_journal s.stage);
    })
started-Tidy unit r st s begun found v =
    let mine : reader s.manager unit ≡ st.cancel_journal = reader-found s.manager unit st found in
    let dropped =
      Tidy-drop unit s (unregister_locked unit s.manager) refl refl refl
        (reader-unregister_locked unit s.manager) v in
    let still : take (reader s.manager unit) s.stage r ≡ starting =
      elim (take_cases (reader s.manager unit) s.stage r) [
        | inl (e, _) ↦ absurd (cc (v.keeps unit r e))
        | inr (_, t) ↦ t ∙ begun
      ] in
    let attached =
      Tidy-attach unit r _ (start_locked unit r st s.manager) still
        (ground (arith, reader-unregister_locked unit s.manager unit, eq_iff unit unit)) refl refl
        refl
        (λ u. ground (
          arith,
          reader-start_locked unit r st s.manager u,
          reader-unregister_locked unit s.manager u,
        ))
        dropped in
    subst
      (λ o. Tidy (record {
        manager = start_locked unit r st s.manager;
        stage = at_stage r kept (take o s.stage);
      }))
      mine attached

Step-Tidy : {s t : Readers} → Step s t → Tidy s → Tidy t
unfolding reader enter_unit unregister_unit wake_unit store_control_group set_tracker lookup
Step-Tidy {s} (enters unit) v =
    Tidy-drop unit s (enter_locked unit s.manager) refl refl refl (reader-enter_unit unit s.manager)
      v
Step-Tidy {s} (unregisters unit) v =
    Tidy-drop unit s (unregister_locked unit s.manager) refl refl refl
      (reader-unregister_unit unit s.manager) v
Step-Tidy {s} issues v = issues-Tidy s v
Step-Tidy {s} (starts unit r st begun found run) v = started-Tidy unit r st s begun found v
Step-Tidy {s} (refuses unit r begun why) v =
    Tidy-move r due s.manager.cancelled s (inl refl) (inl begun) (λ x. inl refl) v
Step-Tidy {s} (cancels r q) v =
    Tidy-move r called (update s.manager.cancelled r true) s (inr (refl, ground arith)) (inr q)
      (λ x. ground arith) v
Step-Tidy {s} ends v = record {
  issued = v.issued;
  made = v.made;
  keeps = v.keeps;
  kept_by = v.kept_by;
  distinct = v.distinct;
  cancelled = λ r e. let old = v.cancelled r e in ground arith;
  live = λ d r e. absurd (cc);
  ended = λ d r l. ground arith;
}
Step-Tidy {s} (stops d) v = record {
  issued = λ r l. (retire_cases (s.stage r)).3 (v.issued r l);
  made = λ r e. v.made r ((retire_cases (s.stage r)).1 e);
  keeps = λ u r h. absurd (cc);
  kept_by = λ r e. absurd ((retire_cases (s.stage r)).0 e);
  distinct = λ x y r h k. absurd (cc);
  cancelled = λ r e. v.cancelled r ((retire_cases (s.stage r)).2 e);
  live = λ n r e. absurd (cc);
  ended = v.ended;
}
Step-Tidy {s} (works (Managers.receives c) a) v = Tidy-same s _ refl refl refl (λ u. refl) v
Step-Tidy {s} (works (Managers.caches unit path t) a) v =
    Tidy-same s (store_control_group unit path t s.manager) refl refl refl
      (reader-store_control_group unit path t s.manager) v
Step-Tidy {s} (works (Managers.wakes unit) a) v = Tidy-same s _ refl refl refl (λ u. refl) v
Step-Tidy {s} (works (Managers.leaves n e) a) v = Tidy-same s _ refl refl refl (λ u. refl) v
Step-Tidy {s} (works (Managers.reconnects c) a) v = Tidy-same s _ refl refl refl (λ u. refl) v
Step-Tidy {s} (works (Managers.samples unit st tracker e) a) v =
    Tidy-same s (set_tracker unit st tracker s.manager) refl refl refl
      (λ u. reader-set_tracker unit st tracker s.manager u e) v
Step-Tidy {s} (works (Managers.enters unit) a) v = absurd a
Step-Tidy {s} (works (Managers.unregisters unit) a) v = absurd a
Step-Tidy {s} (works (Managers.attaches unit) a) v = absurd a
Step-Tidy {s} (works Managers.shuts a) v = absurd a

no_readers-Tidy : (c : ℕ) → Tidy (no_readers c)
unfolding new_manager reader lookup
no_readers-Tidy c = record {
  issued = λ r l. refl;
  made = λ r e. omega arith;
  keeps = λ u r h. absurd (cc);
  kept_by = λ r e. absurd (cc);
  distinct = λ x y r h k. absurd (cc);
  cancelled = λ r e. absurd (cc);
  live = λ d r e. absurd (cc);
  ended = λ d r l. absurd (omega arith);
}

-- In every state that a Manager and its journal readers reach from its creation, by any sequence of
-- critical sections, context creations and cancel calls, from any goroutines: no two units share a
-- reader, and the readers of the units are exactly those whose cancel functions the registry keeps.
-- Until the Manager's own context ends, a reader's context is cancelled exactly if its cancel function
-- was called; from then on every issued reader's is.
pub Reach-Tidy_readers : (c : ℕ) {s : Readers} → Reach (no_readers c) s → Tidy s
Reach-Tidy_readers c here = no_readers-Tidy c
Reach-Tidy_readers c (next r s) = Step-Tidy s (Reach-Tidy_readers c r)
