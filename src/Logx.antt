-- ===== src/Logx.antt =====
-- pkg/logx/attr.go: the attributes of log records, and how they reach hclog.
pub mod Flatten
pub mod Logger
pub mod Semconv
use nomad_driver_systemd.Prelude.{
  ℕ, String, Bool, List, [], ◌∷◌, ◌++◌, Option, none, some, ◌=?◌, if◌then◌else◌,
}
use nomad_driver_systemd.Prelude.Int.{ℤ}

-- A value that hclog takes. A float64 is given by its bits, and a value of no known type by a name.
pub data LogValue : Type 0 where
  text : String → LogValue
  texts : List String → LogValue
  int : ℤ → LogValue
  uint64 : ℕ → LogValue
  float64 : ℕ → LogValue
  boolean : Bool → LogValue
  opaque : ℕ → LogValue

-- The struct Attr: its key, its value, which may be nil, and its group.
mutual
  pub data Attr : Type 0 where
    attr : String → Option LogValue → Attrs → Attr

  pub data Attrs : Type 0 where
    nil : Attrs
    cons : Attr → Attrs → Attrs

abbrev pub zero_attr : Attr
zero_attr = attr "" none nil

abbrev pub valued : String → LogValue → Attr
valued key value = attr key (some value) nil

abbrev pub string : String → String → Attr
string key val = valued key (text val)

abbrev pub strings : String → List String → Attr
strings key val = valued key (texts val)

-- Int and Int64.
abbrev pub int_attr : String → ℤ → Attr
int_attr key val = valued key (int val)

abbrev pub uint64_attr : String → ℕ → Attr
uint64_attr key val = valued key (uint64 val)

abbrev pub float64_attr : String → ℕ → Attr
float64_attr key val = valued key (float64 val)

abbrev pub bool_attr : String → Bool → Attr
bool_attr key val = valued key (boolean val)

abbrev pub any_attr : String → ℕ → Attr
any_attr key val = valued key (opaque val)

-- The values that package time formats, in nanoseconds: with `show`, Duration.String or the layout
-- RFC3339.
abbrev pub duration : (ℤ → String) → String → ℤ → Attr
duration show key val = valued key (text (show val))

abbrev pub time : (ℤ → String) → String → ℤ → Attr
time show key val = valued key (text (show val))

-- fmt.Stringer, by what its String method returns; none is the nil interface.
abbrev pub stringer : String → Option String → Attr
stringer key none = valued key (text "")
stringer key (some s) = valued key (text s)

abbrev pub multi : Attrs → Attr
multi attrs = attr "" none attrs

-- An error, by its message and the name of its dynamic type.
pub record GoError : Type 0 where
  pub message : String
  pub dynamic_type : String

-- `message_key` and `type_key` are key+".message" and key+".type".
unfoldable pub named_err : String → String → Option GoError → Attr
named_err message_key type_key none = zero_attr
named_err message_key type_key (some e) =
    multi (cons (string message_key e.message) (cons (string type_key e.dynamic_type) nil))

abbrev pub err_attr : Option GoError → Attr
unfolding named_err
err_attr e = named_err "error.message" "error.type" e

-- An element of the slice []any that hclog takes.
pub data Arg : Type 0 where
  key : String → Arg
  value : Option LogValue → Arg

unfoldable mutual
  pub append_attrs : List Arg → Attrs → List Arg
  append_attrs out nil = out
  append_attrs out (cons a rest) = append_attrs (append_attr out a) rest

  -- The body of its loop.
  pub append_attr : List Arg → Attr → List Arg
  append_attr out (attr k v (cons a rest)) = append_attrs (append_attr out a) rest
  append_attr out (attr k v nil) = if k =? "" then out else out ++ (key k ∷ value v ∷ [])

-- A nil slice is none.
unfoldable pub flatten : Attrs → Option (List Arg)
unfolding append_attrs
flatten nil = none
flatten (cons a rest) = some (append_attrs [] (cons a rest))
