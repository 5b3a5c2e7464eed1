-- ===== src/DeviceAuth/Service/Types.antt =====
-- service.py: the settings, the results, and the checks on texts.
use us_stock_helper.Prelude.{
  ℕ, ◌*◌, ◌≡◌, refl, Text, text_eq, codes, is_ascii, strip, Bool, true, false, not, ◌&&◌, ◌||◌,
  Option, none, some, length, every, leb, ltb, if◌then◌else◌,
}
use us_stock_helper.DeviceAuth.Errors.{Result, ok, raised, invalid_argument, schema_unsupported}
use us_stock_helper.DeviceAuth.Store.Rows.{Instant, Duration}
use us_stock_helper.DeviceAuth.Credentials.Codes.{PyValue, text, other}
use us_stock_helper.DeviceAuth.Credentials.Scrypt.{ScryptParameters, default_scrypt}
use us_stock_helper.DeviceAuth.Credentials.Tokens.{is_empty}

abbrev pub one_minute : Duration
one_minute = 60000000

-- one hour
abbrev pub max_code_ttl : Duration
max_code_ttl = 60 * one_minute

abbrev pub max_live_codes : ℕ
max_live_codes = 5

abbrev pub code_refused : Text
code_refused = codes "the pairing code is not valid"

abbrev pub code_throttled : Text
code_throttled = codes "too many pairing attempts from this client"

abbrev pub token_refused : Text
token_refused = codes "the device token is not valid"

pub data AttemptOutcome : Type 0 where
  accepted expired reused unknown malformed : AttemptOutcome

unfoldable pub value : AttemptOutcome → Text
value accepted = codes "accepted"
value expired = codes "expired"
value reused = codes "reused"
value unknown = codes "unknown"
value malformed = codes "malformed"

-- `AttemptOutcome(value)`, or the error for a text that is none of the values
unfoldable pub read_outcome : Text → Result AttemptOutcome
unfolding value
read_outcome t =
    if text_eq t (value accepted)
    then ok accepted
    else if text_eq t (value expired)
    then ok expired
    else if text_eq t (value reused)
    then ok reused
    else if text_eq t (value unknown)
    then ok unknown
    else if text_eq t (value malformed)
    then ok malformed
    else raised schema_unsupported

pub data RevocationResult : Type 0 where
  revoked already_revoked unknown_device : RevocationResult

pub record IssuedPairingCode : Type 0 where
  pub code : Text
  pub label : Text
  pub expires_at : Instant

pub record PairingOutcome : Type 0 where
  pub token : Option Text
  pub device_id : Option Text
  pub reason : Option Text
  pub retry_after_seconds : Option ℕ

pub record TokenVerification : Type 0 where
  pub device_id : Option Text
  pub reason : Option Text

unfoldable pub authorized : TokenVerification → Bool
authorized v = elim v.device_id [ none ↦ false | some id ↦ true ]

pub record PairingAttemptRecord : Type 0 where
  pub client_id : Text
  pub attempted_at : Instant
  pub outcome : AttemptOutcome

-- The settings of `DeviceAuthService`; the store is the state, and the clock an argument.
pub record DeviceAuthService : Type 0 where
  pub code_ttl : Duration
  pub code_length : ℕ
  pub pairing_attempt_limit : ℕ
  pub pairing_attempt_window : Duration
  pub attempt_retention : Duration
  pub code_retention : Duration
  pub scrypt : ScryptParameters

abbrev pub default_service : DeviceAuthService
default_service = record {
  code_ttl = 10 * one_minute;
  code_length = 8;
  pairing_attempt_limit = 5;
  pairing_attempt_window = one_minute;
  attempt_retention = 1440 * one_minute;
  code_retention = 60 * one_minute;
  scrypt = default_scrypt;
}

-- `str.isprintable`, on ASCII
abbrev pub is_printable : Text → Bool
is_printable = every (λ c. leb 32 c && leb c 126)

unfoldable pub check_text : Text → ℕ → Result Text
check_text stripped max_length =
    if is_empty stripped || ltb max_length (length stripped)
    then raised invalid_argument
    else if not (is_ascii stripped) || not (is_printable stripped)
    then raised invalid_argument
    else ok stripped

unfoldable pub require_text : PyValue → ℕ → Result Text
require_text other max_length = raised invalid_argument
require_text (text v) max_length = check_text (strip v) max_length

-- Every outcome that is recorded is read back as itself.
pub read_outcome-value : (o : AttemptOutcome) → read_outcome (value o) ≡ ok o
unfolding read_outcome text_eq
read_outcome-value accepted = refl
read_outcome-value expired = refl
read_outcome-value reused = refl
read_outcome-value unknown = refl
read_outcome-value malformed = refl
