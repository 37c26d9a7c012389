-- ===== src/Errors.antt =====
-- Go errors as values: pkg/systemd, pkg/task and plugin return them beside their results.
use nomad_driver_systemd.Prelude.{String, Bool, true, false, ◌≡◌, refl, ◌⊎◌, inl, inr}

-- `outside` is an error made by a library, `message` one by errors.New or by fmt.Errorf with no
-- %w, `wrap` one by fmt.Errorf with %w; the rest are the sentinels and the messages with arguments.
pub data Error : Type 0 where
  outside : String → Error
  message : String → Error
  wrap : String → Error → Error
  unit_not_registered : Error
  task_not_found : Error
  no_connection : Error
  job_failed : String → String → String → Error
  unit_denied : String → String → Error
  unit_not_allowed : String → Error
  unit_owned : String → String → Error

-- What a function returns beside an error: a value, or the error that is not nil.
pub data Result {ℓ} (A : Type ℓ) : Type ℓ where
  err : Error → Result A
  ok : A → Result A

infixl 5 ◌>>=◌ ◌>>◌
abbrev pub ◌>>=◌ {ℓ κ} : {S : Type ℓ} {T : Type κ} → Result S → (S → Result T) → Result T
err e >>= next = err e
ok s >>= next = next s

abbrev pub ◌>>◌ {κ} : {T : Type κ} → Result (Unit {0}) → Result T → Result T
err e >> rest = err e
ok _ >> rest = rest

abbrev pub is_ok {ℓ} : {A : Type ℓ} → Result A → Bool
is_ok (ok a) = true
is_ok (err e) = false

-- `fmt.Errorf("...: %w", err)` on the error path of a call.
abbrev pub wrapped {ℓ} : {A : Type ℓ} → String → Result A → Result A
wrapped s (ok a) = ok a
wrapped s (err e) = err (wrap s e)

-- errors.Is(err, ErrUnitNotRegistered): the chain of wrapped errors is searched.
unfoldable pub is_unit_not_registered : Error → Bool
is_unit_not_registered unit_not_registered = true
is_unit_not_registered (wrap s e) = is_unit_not_registered e
is_unit_not_registered _ = false

pub Result-cases {ℓ} :
    {A : Type ℓ} (r : Result A) → ((a : A) × (r ≡ ok a)) ⊎ ((e : Error) × (r ≡ err e))
Result-cases (ok a) = inl (a, refl)
Result-cases (err e) = inr (e, refl)
