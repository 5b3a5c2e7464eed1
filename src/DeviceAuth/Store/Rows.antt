-- ===== src/DeviceAuth/Store/Rows.antt =====
-- The three tables of store.py, and the rows that its queries return.
use us_stock_helper.Prelude.{ℕ, Text, Option, List, []}

-- Times and lifetimes, in microseconds.
abbrev pub Instant : Type 0
Instant = ℕ

abbrev pub Duration : Type 0
Duration = ℕ

-- A row of `pairing_codes`.
pub record CodeEntry : Type 0 where
  pub code_id : Text
  pub salt : Text
  pub code_hash : Text
  pub kdf : Text
  pub label : Text
  pub created_at : Instant
  pub expires_at : Instant
  pub consumed_at : Option Instant

-- What `candidate_pairing_codes` selects of one.
pub record PairingCodeRow : Type 0 where
  pub code_id : Text
  pub salt : Text
  pub code_hash : Text
  pub kdf : Text
  pub label : Text
  pub expires_at : Instant
  pub consumed_at : Option Instant

-- A row of `devices`.
pub record DeviceEntry : Type 0 where
  pub device_id : Text
  pub name : Text
  pub salt : Text
  pub token_hash : Text
  pub algorithm : Text
  pub paired_from_code : Text
  pub created_at : Instant
  pub last_seen_at : Option Instant
  pub revoked_at : Option Instant
  pub revoked_reason : Option Text

-- What `device_secret` selects of one.
pub record DeviceSecretRow : Type 0 where
  pub device_id : Text
  pub salt : Text
  pub token_hash : Text
  pub algorithm : Text
  pub revoked_at : Option Instant

-- A row of `pairing_attempts`.
pub record AttemptEntry : Type 0 where
  pub attempt_id : ℕ
  pub client_id : Text
  pub attempted_at : Instant
  pub outcome : Text

-- A reserved slot in the rate-limit window, or the wait to get one.
pub record AttemptSlot : Type 0 where
  pub attempt_id : Option ℕ
  pub retry_after_seconds : Option ℕ

-- `next_attempt_id` is what AUTOINCREMENT gives to the next attempt.
pub record DeviceStore : Type 0 where
  pub pairing_codes : List CodeEntry
  pub devices : List DeviceEntry
  pub pairing_attempts : List AttemptEntry
  pub next_attempt_id : ℕ

-- The store that `_SCHEMA_STATEMENTS` creates.
abbrev pub empty_store : DeviceStore
empty_store = record {
  pairing_codes = [];
  devices = [];
  pairing_attempts = [];
  next_attempt_id = 1;
}
