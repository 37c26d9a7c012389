-- ===== src/Logx/Logger.antt =====
-- pkg/logx/logx.go: the Logger, over hclog.
use nomad_driver_systemd.Prelude.{String, List, [], Option, none, some, Bool}
use nomad_driver_systemd.Logx.{Arg, Attrs, nil, cons, flatten}

pub data Level : Type 0 where
  trace debug info warn error : Level

-- What the Logger uses of an hclog.Logger `H`, whose records go to a world `W`.
pub record Hclog (H W : Type 0) : Type 0 where
  pub sublogger : H → String → H
  pub with_args : H → List Arg → H
  pub emit : H → Level → String → List Arg → W → W
  pub is_trace : H → Bool
  pub is_debug : H → Bool

-- A nil slice spread into variadic arguments is no argument.
abbrev pub args : Option (List Arg) → List Arg
args none = []
args (some l) = l

pub record Logger (H : Type 0) : Type 0 where
  pub h : H

abbrev pub new_logger : {H : Type 0} → H → Logger H
new_logger h = record { h = h }

abbrev pub raw : {H : Type 0} → Logger H → H
raw l = l.h

module _ {H W : Type 0} (c : Hclog H W) where
  unfoldable pub named_logger : Logger H → String → Logger H
  named_logger l name = record { h = c.sublogger l.h name }

  unfoldable pub with_attrs : Logger H → Attrs → Logger H
  with_attrs l nil = l
  with_attrs l (cons a rest) = record { h = c.with_args l.h (args (flatten (cons a rest))) }

  -- Trace, Debug, Info, Warn and Error.
  unfoldable pub log : Logger H → Level → String → Attrs → W → W
  log l level msg attrs w = c.emit l.h level msg (args (flatten attrs)) w

  abbrev pub logs_trace : Logger H → Bool
  logs_trace l = c.is_trace l.h

  abbrev pub logs_debug : Logger H → Bool
  logs_debug l = c.is_debug l.h
