-- ===== src/Prelude/Results.antt =====
-- Exceptions as values: what a function of the package raises, and the result of a call.
use mathlib.Core.Path.{◌≡◌, refl}
use mathlib.Core.Bool.{Bool, true, false}

pub data Exception : Type 0 where
  attribute_error type_error value_error key_error assertion_error : Exception
  scheduler_error illegal_transition : Exception
  back_update_exhausted irreversible_undo_forbidden auto_resume_not_available : Exception
  runtime_error : Exception
  -- the model's own: a loop that ran out of its fuel
  out_of_fuel : Exception

-- How a call ends: it raises, or it returns.
pub data Result {ℓ} (V : Type ℓ) : Type ℓ where
  err : (raised : Exception) → Result V
  ok : (returned : V) → Result V

-- `if not test: raise exception`
abbrev pub guard : (test : Bool) → (exception : Exception) → Result (Unit {0})
guard false exception = err exception
guard true exception = ok tt

infixl 5 ◌>>=◌ ◌>>◌
-- The rest of the body runs unless the call raised.
abbrev pub ◌>>=◌ {ℓ κ} :
    {V : Type ℓ} {W : Type κ} (call : Result V) (rest : V → Result W) → Result W
err raised >>= rest = err raised
ok returned >>= rest = rest returned

abbrev pub ◌>>◌ {κ} : {W : Type κ} (call : Result (Unit {0})) (rest : Result W) → Result W
call >> rest = call >>= λ (_ : Unit {0}). rest

pub ok_inj {ℓ} : {V : Type ℓ} {v w : V} → ok v ≡ ok w → v ≡ w
ok_inj same = cc same

-- `call >>= ok` is `call`.
pub bind-ok {ℓ} : {V : Type ℓ} (call : Result V) → (call >>= λ v. ok v) ≡ call
bind-ok (err raised) = refl
bind-ok (ok returned) = refl

-- A body that returned made a call that returned, and its rest returned the same.
pub >>=-eq-ok {ℓ κ} :
    {V : Type ℓ} {W : Type κ} (call : Result V) (rest : V → Result W) {w : W}
    → (call >>= rest) ≡ ok w
    → (v : V) × (call ≡ ok v) × (rest v ≡ ok w)
>>=-eq-ok (err raised) rest returns = cc
>>=-eq-ok (ok returned) rest returns = (returned, refl, returns)

pub bind_assoc {ℓ κ μ} :
    {U : Type ℓ} {V : Type κ} {W : Type μ} (call : Result U) (rest : U → Result V)
    (last : V → Result W)
    → ((call >>= rest) >>= last) ≡ (call >>= λ u. rest u >>= last)
bind_assoc (err raised) rest last = refl
bind_assoc (ok returned) rest last = refl
