-- ===== src/DeviceAuth/Errors.antt =====
-- services/device_auth/src/us_stock_helper_device_auth/errors.py: the error codes, and the
-- outcome of a call that may raise one. The message of an error is not modelled.
use us_stock_helper.Prelude.{Bool, true, false}

pub data ErrorCode : Type 0 where
  invalid_argument storage_insecure storage_unreadable schema_unsupported : ErrorCode
  too_many_pairing_codes : ErrorCode

-- What a call returns, or the code of the `DeviceAuthError` that it raises.
pub data Result {ℓ} (A : Type ℓ) : Type ℓ where
  ok : A → Result A
  raised : ErrorCode → Result A

infixl 5 ◌>>=◌ ◌>>◌
abbrev pub ◌>>=◌ {ℓ κ} : {A : Type ℓ} {B : Type κ} → Result A → (A → Result B) → Result B
ok a >>= f = f a
raised e >>= f = raised e

abbrev pub ◌>>◌ {ℓ} : {B : Type ℓ} → Result (Unit {0}) → Result B → Result B
m >> k = m >>= λ _. k

-- `if not test: raise DeviceAuthError(code)`
abbrev pub guard : Bool → ErrorCode → Result (Unit {0})
guard true e = ok tt
guard false e = raised e
