-- ===== src/DeviceAuth/Service/Device.antt =====
-- service.py, "device side": redeeming a pairing code and verifying a token.
use us_stock_helper.Prelude.{
  ℕ, Text, text_eq, Bool, not, ◌||◌, Option, none, some, List, [], ◌∷◌, leb, if◌then◌else◌,
}
use us_stock_helper.DeviceAuth.Errors.{Result, ok, raised}
use us_stock_helper.DeviceAuth.Store.Rows.{Instant, PairingCodeRow, DeviceSecretRow, AttemptSlot}
use us_stock_helper.DeviceAuth.Store.Codes.{
  Claim, is_none, candidate_pairing_codes, consume_code_and_register_device,
}
use us_stock_helper.DeviceAuth.Store.Attempts.{
  Reservation, reserve_pairing_attempt, record_attempt_outcome,
}
use us_stock_helper.DeviceAuth.Store.Devices.{device_secret, touch_device}
use us_stock_helper.DeviceAuth.Credentials.Codes.{PyValue, normalize_code}
use us_stock_helper.DeviceAuth.Credentials.Scrypt.{parse}
use us_stock_helper.DeviceAuth.Credentials.Tokens.{format_token, split_token}
use us_stock_helper.DeviceAuth.Credentials.Digests.{Digests, code_hash, token_hash, token_algorithm}
use us_stock_helper.DeviceAuth.Action.{Action, pure, lift, gets, call, modify, ◌>>=◌, ◌>>◌}
use us_stock_helper.DeviceAuth.Service.Types.{
  DeviceAuthService, PairingOutcome, TokenVerification, AttemptOutcome, accepted, expired, reused,
  unknown, malformed, value, code_refused, code_throttled, token_refused, require_text,
}

-- The random draws of `redeem_pairing_code`.
pub record DeviceDraws : Type 0 where
  pub device_id : Text
  pub secret : Text
  pub salt : Text

-- `_DECOY_SALT` and `_DECOY_DIGEST`
pub record Decoy : Type 0 where
  pub salt : Text
  pub digest : Text

-- The answers of `redeem_pairing_code`.
abbrev pub refused_outcome : PairingOutcome
refused_outcome = record {
  token = none;
  device_id = none;
  reason = some code_refused;
  retry_after_seconds = none;
}

abbrev pub throttled_outcome : Option ℕ → PairingOutcome
throttled_outcome wait = record {
  token = none;
  device_id = none;
  reason = some code_throttled;
  retry_after_seconds = wait;
}

abbrev pub paired_outcome : DeviceDraws → PairingOutcome
paired_outcome draws = record {
  token = some (format_token draws.device_id draws.secret);
  device_id = some draws.device_id;
  reason = none;
  retry_after_seconds = none;
}

-- `_refuse`
unfoldable pub refuse : ℕ → AttemptOutcome → Action PairingOutcome
refuse attempt_id outcome = do
  modify (record_attempt_outcome attempt_id (value outcome))
  pure refused_outcome

-- The loop of `_match_code`: every candidate is hashed, and the last match is kept.
unfoldable pub match_rows :
    Digests → Text → Option PairingCodeRow → List PairingCodeRow → Result (Option PairingCodeRow)
match_rows d normalized found [] = ok found
match_rows d normalized found (row ∷ rows) = elim (parse row.kdf) [
  | raised e ↦ raised e
  | ok parameters ↦ elim (code_hash d normalized row.salt parameters) [
    | raised e ↦ raised e
    | ok digest ↦
        match_rows d normalized (if text_eq digest row.code_hash then some row else found) rows
  ]
]

unfoldable pub match_code :
    DeviceAuthService → Digests → Text → Instant → Action (Option PairingCodeRow)
match_code svc d normalized now = do
  rows ← gets (candidate_pairing_codes now svc.code_retention)
  lift (match_rows d normalized none rows)

-- The operator named the device when the code was issued.
abbrev pub claim_of : DeviceDraws → Instant → PairingCodeRow → Text → Claim
claim_of draws now matched digest = record {
  code_id = matched.code_id;
  now = now;
  device_id = draws.device_id;
  name = matched.label;
  salt = draws.salt;
  digest = digest;
  algorithm = token_algorithm;
}

unfoldable pub answer_claim : DeviceDraws → ℕ → Bool → Action PairingOutcome
answer_claim draws attempt_id claimed =
    if not claimed
    then refuse attempt_id reused
    else do modify (record_attempt_outcome attempt_id (value accepted)); pure (paired_outcome draws)

-- The claim of a matched row, and the answer to it.
unfoldable pub claim_code :
    Digests → DeviceDraws → Instant → ℕ → PairingCodeRow → Action PairingOutcome
claim_code d draws now attempt_id matched = do
  digest ← lift (token_hash d draws.salt draws.secret token_algorithm)
  claimed ← consume_code_and_register_device (claim_of draws now matched digest)
  answer_claim draws attempt_id claimed

unfoldable pub decide_match :
    Digests → DeviceDraws → Instant → ℕ → Option PairingCodeRow → Action PairingOutcome
decide_match d draws now attempt_id none = refuse attempt_id unknown
decide_match d draws now attempt_id (some matched) =
    if not (is_none matched.consumed_at)
    then refuse attempt_id reused
    else if leb matched.expires_at now
    then refuse attempt_id expired
    else claim_code d draws now attempt_id matched

unfoldable pub try_code :
    DeviceAuthService → Digests → DeviceDraws → Instant → ℕ → Option Text → Action PairingOutcome
try_code svc d draws now attempt_id none = refuse attempt_id malformed
try_code svc d draws now attempt_id (some normalized) = do
  matched ← match_code svc d normalized now
  decide_match d draws now attempt_id matched

abbrev pub reservation : DeviceAuthService → Text → Instant → Reservation
reservation svc client now = record {
  client_id = client;
  now = now;
  limit = svc.pairing_attempt_limit;
  window = svc.pairing_attempt_window;
  retain_attempts_for = svc.attempt_retention;
  pending_outcome = value unknown;
}

-- What is done with the answer of the rate limit.
unfoldable pub use_slot :
    DeviceAuthService
    → Digests
    → DeviceDraws
    → Instant
    → PyValue
    → AttemptSlot
    → Action PairingOutcome
use_slot svc d draws now code slot = elim slot.attempt_id [
  | none ↦ pure (throttled_outcome slot.retry_after_seconds)
  | some attempt_id ↦ try_code svc d draws now attempt_id (normalize_code code)
]

unfoldable pub redeem_pairing_code :
    DeviceAuthService → Digests → DeviceDraws → Instant → PyValue → PyValue → Action PairingOutcome
redeem_pairing_code svc d draws now code client_id = do
  client ← lift (require_text client_id 100)
  slot ← call (reserve_pairing_attempt (reservation svc client now))
  use_slot svc d draws now code slot

abbrev pub refused_token : TokenVerification
refused_token = record { device_id = none; reason = some token_refused }

-- The end of `verify_token`, once the row and the presented digest are there.
unfoldable pub answer_token :
    Text → Instant → Option DeviceSecretRow → Bool → Action TokenVerification
answer_token device_id now none recognized = pure refused_token
answer_token device_id now (some found) recognized =
    if not recognized || not (is_none found.revoked_at) then pure refused_token else do
      modify (touch_device device_id now)
      pure (record { device_id = some device_id; reason = none })

-- What the digest is made of: a decoy where there is no row.
abbrev pub salt_of : Decoy → Option DeviceSecretRow → Text
salt_of decoy none = decoy.salt
salt_of decoy (some found) = found.salt

abbrev pub expected_of : Decoy → Option DeviceSecretRow → Text
expected_of decoy none = decoy.digest
expected_of decoy (some found) = found.token_hash

abbrev pub algorithm_of : Option DeviceSecretRow → Text
algorithm_of none = token_algorithm
algorithm_of (some found) = found.algorithm

unfoldable pub verify_parts :
    Digests → Decoy → Instant → Option (Text × Text) → Action TokenVerification
verify_parts d decoy now none = pure refused_token
verify_parts d decoy now (some (device_id, secret)) = do
  found ← gets (device_secret device_id)
  presented ← lift (token_hash d (salt_of decoy found) secret (algorithm_of found))
  answer_token device_id now found (text_eq presented (expected_of decoy found))

unfoldable pub verify_token : Digests → Decoy → Instant → PyValue → Action TokenVerification
verify_token d decoy now token = verify_parts d decoy now (split_token token)
