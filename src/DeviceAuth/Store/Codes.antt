-- ===== src/DeviceAuth/Store/Codes.antt =====
-- store.py, "pairing codes": issuing, listing and claiming a pairing code.
use us_stock_helper.Prelude.{
  ℕ, ◌+◌, Text, text_eq, text_lt, Bool, true, false, not, ◌&&◌, ◌||◌, Option, none, some, List, [],
  ◌∷◌, ◌++◌, map, ltb, leb, ◌==◌, if◌then◌else◌, select, count_where, exists, take, update_where,
}
use us_stock_helper.DeviceAuth.Errors.{
  Result, ok, raised, too_many_pairing_codes, storage_unreadable,
}
use us_stock_helper.DeviceAuth.Store.Rows.{
  Instant, Duration, CodeEntry, PairingCodeRow, DeviceEntry, DeviceStore,
}

abbrev pub max_candidate_codes : ℕ
max_candidate_codes = 16

abbrev pub is_none {ℓ} : {A : Type ℓ} → Option A → Bool
is_none none = true
is_none (some a) = false

-- `consumed_at IS NULL AND expires_at > stamp`
abbrev pub is_live : Instant → CodeEntry → Bool
is_live stamp r = is_none r.consumed_at && ltb stamp r.expires_at

-- not `expires_at < now - retain`
abbrev pub is_retained : Instant → Duration → CodeEntry → Bool
is_retained now retain r = not (ltb (r.expires_at + retain) now)

abbrev pub has_code_id : Text → CodeEntry → Bool
has_code_id id r = text_eq r.code_id id

abbrev pub has_device_id : Text → DeviceEntry → Bool
has_device_id id r = text_eq r.device_id id

-- The keyword arguments of `insert_pairing_code`.
pub record NewCode : Type 0 where
  pub code_id : Text
  pub salt : Text
  pub digest : Text
  pub kdf : Text
  pub label : Text
  pub created_at : Instant
  pub expires_at : Instant
  pub live_code_limit : ℕ
  pub retain_codes_for : Duration

unfoldable pub new_code : NewCode → CodeEntry
new_code c = record {
  code_id = c.code_id;
  salt = c.salt;
  code_hash = c.digest;
  kdf = c.kdf;
  label = c.label;
  created_at = c.created_at;
  expires_at = c.expires_at;
  consumed_at = none;
}

-- A primary key that is there already is an integrity error of the database.
unfoldable pub insert_pairing_code : NewCode → DeviceStore → Result (Unit {0}) × DeviceStore
unfolding new_code
insert_pairing_code c s =
    let kept = select (is_retained c.created_at c.retain_codes_for) s.pairing_codes in
    if leb c.live_code_limit (count_where (is_live c.created_at) kept)
    then (raised too_many_pairing_codes, s)
    else if exists (has_code_id c.code_id) kept
    then (raised storage_unreadable, s)
    else (ok tt, record s { pairing_codes = kept ++ new_code c ∷ [] })

-- `ORDER BY (consumed_at IS NULL AND expires_at > stamp) DESC, created_at DESC, code_id DESC`
unfoldable pub sorts_before : Instant → CodeEntry → CodeEntry → Bool
sorts_before stamp a b =
    (is_live stamp a && not (is_live stamp b))
    || ((not (is_live stamp b) || is_live stamp a)
        && (ltb b.created_at a.created_at
            || (b.created_at == a.created_at && text_lt b.code_id a.code_id)))

unfoldable pub insert_sorted : Instant → CodeEntry → List CodeEntry → List CodeEntry
insert_sorted stamp r [] = r ∷ []
insert_sorted stamp r (x ∷ xs) =
    if sorts_before stamp x r then x ∷ insert_sorted stamp r xs else r ∷ x ∷ xs

unfoldable pub order_codes : Instant → List CodeEntry → List CodeEntry
order_codes stamp [] = []
order_codes stamp (x ∷ xs) = insert_sorted stamp x (order_codes stamp xs)

abbrev pub to_row : CodeEntry → PairingCodeRow
to_row r = record {
  code_id = r.code_id;
  salt = r.salt;
  code_hash = r.code_hash;
  kdf = r.kdf;
  label = r.label;
  expires_at = r.expires_at;
  consumed_at = r.consumed_at;
}

unfoldable pub candidate_pairing_codes : Instant → Duration → DeviceStore → List PairingCodeRow
candidate_pairing_codes now retain s =
    map to_row
      (take max_candidate_codes (order_codes now (select (is_retained now retain) s.pairing_codes)))

-- The keyword arguments of `consume_code_and_register_device`.
pub record Claim : Type 0 where
  pub code_id : Text
  pub now : Instant
  pub device_id : Text
  pub name : Text
  pub salt : Text
  pub digest : Text
  pub algorithm : Text

-- `code_id = ? AND consumed_at IS NULL AND expires_at > ?`
abbrev pub is_claimable : Claim → CodeEntry → Bool
is_claimable c r = has_code_id c.code_id r && is_live c.now r

unfoldable pub new_device : Claim → DeviceEntry
new_device c = record {
  device_id = c.device_id;
  name = c.name;
  salt = c.salt;
  token_hash = c.digest;
  algorithm = c.algorithm;
  paired_from_code = c.code_id;
  created_at = c.now;
  last_seen_at = none;
  revoked_at = none;
  revoked_reason = none;
}

unfoldable pub consume_code_and_register_device : Claim → DeviceStore → Result Bool × DeviceStore
unfolding new_device
consume_code_and_register_device c s =
    if not (count_where (is_claimable c) s.pairing_codes == 1)
    then (ok false, s)
    else if exists (has_device_id c.device_id) s.devices
    then (raised storage_unreadable, s)
    else (
      ok true,
      record s {
        pairing_codes =
            update_where (is_claimable c) (λ r. record r { consumed_at = some c.now })
              s.pairing_codes;
        devices = s.devices ++ new_device c ∷ [];
      },
    )
