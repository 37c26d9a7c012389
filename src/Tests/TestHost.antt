-- ===== src/Tests/TestHost.antt =====
-- A host in which every call succeeds until its context has ended: units run, except dead.service,
-- which has failed; the world is a clock that each call advances.
use nomad_driver_systemd.Prelude.{ℕ, suc, String, true, [], ◌∷◌, ◌=?◌, if◌then◌else◌, codes}
use nomad_driver_systemd.Prelude.Int.{pos}
use nomad_driver_systemd.Errors.{Error, Result, ok, err, outside}
use nomad_driver_systemd.Units.{Variant, text, uint64, int32}
use nomad_driver_systemd.Policy.{Regexps}
use nomad_driver_systemd.Host.{Host, OpContext, posted}

abbrev pub canceled : Error
canceled = outside "context canceled"

abbrev pub answer {ℓ} : {A : Type ℓ} → OpContext → A → ℕ → Result A × ℕ
answer op a w = (if op.ended then err canceled else ok a, suc w)

abbrev pub property_of : String → String → Variant
property_of unit property =
    if property =? "ActiveState"
    then text (if unit =? "dead.service" then "failed" else "active")
    else uint64 5000

-- A pattern matches the text that it is, and .* every text.
abbrev pub test_regexps : Regexps
test_regexps = record {
  compile = λ p. if p =? "(" then err (outside "missing closing )") else ok tt;
  match_string = λ p s. if p =? ".*" then true else p =? s;
}

instance abbrev pub test_host : Host
test_host = record {
  World = ℕ;
  Float = ℕ;
  float_zero = 0;
  new_connection = λ w. (ok 1, suc w);
  connected = λ c w. true;
  close = λ c w. suc w;
  subscribe = λ c w. (ok tt, suc w);
  set_properties_subscriber = λ c w. suc w;
  enqueue_start = λ op c unit w. answer op 1 w;
  enqueue_stop = λ op c unit w. answer op 2 w;
  await_job = λ op job w. (posted "done", suc w);
  kill_all = λ op c unit w. answer op tt w;
  get_unit_property = λ op c unit property w. answer op (property_of unit property) w;
  get_unit_properties = λ op c unit w. answer op (("ControlGroup", text "/test") ∷ []) w;
  get_service_properties = λ op c unit w.
      answer op (("ExecMainCode", int32 (pos 2)) ∷ ("ExecMainStatus", int32 (pos 9)) ∷ []) w;
  now = λ w. (w, suc w);
  read_file = λ path name w. (ok (codes "7"), suc w);
  file_exists = λ path w. true;
  new_tracker = λ w. (w, suc w);
  tracker_percent = λ t n w. (n, suc w);
  tracker_ticks = λ t p w. (p, suc w);
  open_journal = λ w. (ok w, suc w);
  add_match = λ j s w. (ok tt, suc w);
  seek_realtime = λ j t w. (ok tt, suc w);
  seek_tail = λ j w. (ok tt, suc w);
  close_journal = λ j w. suc w;
  regexps = test_regexps;
  decode_config = λ raw. ok (record { allowed_units = []; denied_units = []; pprof_addr = raw });
  decode_driver_config = λ raw. ok (record { unit = raw });
  set_driver_state = λ tc. ok tc.unit;
  get_driver_state = λ raw. ok (record { unit = raw });
  emit_event = λ e w. (ok tt, suc w);
  listen = λ addr w. (ok tt, suc w);
  unlisten = λ addr w. suc w;
}
