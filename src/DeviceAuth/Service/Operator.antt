-- ===== src/DeviceAuth/Service/Operator.antt =====
-- service.py, "operator side": issuing codes, revoking devices, and the listings.
use us_stock_helper.Prelude.{
  ℕ, ◌+◌, Text, ◌&&◌, not, Bool, Option, List, [], ◌∷◌, ltb, leb, if◌then◌else◌,
}
use us_stock_helper.DeviceAuth.Errors.{Result, ok, raised, guard, invalid_argument}
use us_stock_helper.DeviceAuth.Store.Rows.{Instant}
use us_stock_helper.DeviceAuth.Store.Codes.{NewCode, insert_pairing_code}
use us_stock_helper.DeviceAuth.Store.Attempts.{recent_attempts}
use us_stock_helper.DeviceAuth.Store.Devices.{DeviceRecord}
use us_stock_helper.DeviceAuth.Store.Devices as Table
use us_stock_helper.DeviceAuth.Credentials.Codes.{PyValue, generate_code}
use us_stock_helper.DeviceAuth.Credentials.Scrypt.{serialize}
use us_stock_helper.DeviceAuth.Credentials.Digests.{Digests, code_hash}
use us_stock_helper.DeviceAuth.Action.{Action, pure, lift, gets, call, ◌>>=◌, ◌>>◌}
use us_stock_helper.DeviceAuth.Service.Types.{
  DeviceAuthService, IssuedPairingCode, RevocationResult, revoked, already_revoked, unknown_device,
  PairingAttemptRecord, max_code_ttl, max_live_codes, require_text, read_outcome,
}

-- The random draws of `issue_pairing_code`.
pub record CodeDraws : Type 0 where
  pub choices : ℕ → ℕ
  pub salt : Text
  pub code_id : Text

abbrev pub new_code_of : DeviceAuthService → CodeDraws → Instant → Text → Text → NewCode
new_code_of svc draws now digest label = record {
  code_id = draws.code_id;
  salt = draws.salt;
  digest = digest;
  kdf = serialize svc.scrypt;
  label = label;
  created_at = now;
  expires_at = now + svc.code_ttl;
  live_code_limit = max_live_codes;
  retain_codes_for = svc.code_retention;
}

unfoldable pub issue_pairing_code :
    DeviceAuthService → Digests → CodeDraws → Instant → PyValue → Action IssuedPairingCode
issue_pairing_code svc d draws now label = do
  lift (guard (ltb 0 svc.code_ttl && leb svc.code_ttl max_code_ttl) invalid_argument)
  checked ← lift (require_text label 64)
  code ← lift (generate_code svc.code_length draws.choices)
  digest ← lift (code_hash d code draws.salt svc.scrypt)
  insert_pairing_code (new_code_of svc draws now digest checked)
  pure (record { code = code; label = checked; expires_at = now + svc.code_ttl })

abbrev pub revocation_result : Bool × Bool → RevocationResult
revocation_result (exists, changed) =
    if not exists then unknown_device else if changed then revoked else already_revoked

unfoldable pub revoke_device : Text → Instant → PyValue → Action RevocationResult
revoke_device device_id now reason = do
  checked_reason ← lift (require_text reason 120)
  answer ← call (Table.revoke_device device_id now checked_reason)
  pure (revocation_result answer)

unfoldable pub devices : Action (List DeviceRecord)
devices = gets Table.all_devices

unfoldable pub read_attempts : List (Text × Instant × Text) → Result (List PairingAttemptRecord)
read_attempts [] = ok []
read_attempts ((client, at, outcome) ∷ rows) = elim (read_outcome outcome) [
  | raised e ↦ raised e
  | ok read ↦ elim (read_attempts rows) [
    | raised e ↦ raised e
    | ok more ↦ ok (record { client_id = client; attempted_at = at; outcome = read } ∷ more)
  ]
]

unfoldable pub recent_pairing_attempts : Option Text → ℕ → Action (List PairingAttemptRecord)
unfolding read_attempts
recent_pairing_attempts client limit = do
  rows ← gets (recent_attempts client limit)
  lift (read_attempts rows)
