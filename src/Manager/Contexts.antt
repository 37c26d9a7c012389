-- ===== src/Manager/Contexts.antt =====
-- pkg/systemd's opContext: an operation ends with the caller's context and with the Manager's.
use nomad_driver_systemd.Prelude.{String, Bool, true, false, ◌≡◌, ◌⊎◌, inl, inr, refl, arith, ℕ}
use nomad_driver_systemd.Errors.{is_ok, Result-cases}
use nomad_driver_systemd.Host.{Host, OpContext}
use nomad_driver_systemd.Manager.{Manager, get_conn, op_context, property_timeout}
use nomad_driver_systemd.Manager.Jobs.{unit_state}

module _ ⦃h : Host⦄ where
  open h use {World}

  -- go-systemd's calls take a context, and fail once it has ended.
  abbrev pub EndedCallsFail : Type 0
  EndedCallsFail =
      (op : OpContext) (c : ℕ) (unit property : String) (w : World)
      → op.ended ≡ true
      → is_ok (h.get_unit_property op c unit property w).0 ≡ false

  pub unit_state-ended :
      EndedCallsFail
      → (m : Manager) (ctx : Bool) (unit : String) (w : World) → (ctx ≡ true) ⊎ (m.shut_down ≡ true)
      → is_ok (unit_state m ctx unit w).0 ≡ false
  unfolding unit_state op_context
  unit_state-ended ends m ctx unit w s = elim (Result-cases (get_conn m w)) [
    | inr (e, q) ↦ rw (q, unit_state) refl
    | inl (c, q) ↦
        ground (arith, q, ends (op_context m ctx property_timeout) c unit "ActiveState" w)
  ]
