-- ===== src/DeviceAuth/Store/Devices.antt =====
-- store.py, "devices": looking a device up, touching it and revoking it.
use us_stock_helper.Prelude.{
  Text, text_lt, Bool, true, false, ◌&&◌, ◌||◌, Option, none, some, List, [], ◌∷◌, ltb, ◌==◌,
  if◌then◌else◌, find, update_where, map,
}
use us_stock_helper.DeviceAuth.Store.Rows.{Instant, DeviceEntry, DeviceSecretRow, DeviceStore}
use us_stock_helper.DeviceAuth.Store.Codes.{has_device_id}

abbrev pub to_secret : DeviceEntry → DeviceSecretRow
to_secret r = record {
  device_id = r.device_id;
  salt = r.salt;
  token_hash = r.token_hash;
  algorithm = r.algorithm;
  revoked_at = r.revoked_at;
}

unfoldable pub device_secret : Text → DeviceStore → Option DeviceSecretRow
device_secret id s = elim (find (has_device_id id) s.devices) [
  | none ↦ none
  | some r ↦ some (to_secret r)
]

unfoldable pub touch_device : Text → Instant → DeviceStore → DeviceStore
touch_device id now s = record s {
  devices = update_where (has_device_id id) (λ r. record r { last_seen_at = some now }) s.devices;
}

abbrev pub revoke_row : Instant → Text → DeviceEntry → DeviceEntry
revoke_row now reason r = record r { revoked_at = some now; revoked_reason = some reason }

-- Whether the device exists and whether this call revoked it.
unfoldable pub revoke_device : Text → Instant → Text → DeviceStore → (Bool × Bool) × DeviceStore
revoke_device id now reason s = elim (find (has_device_id id) s.devices) [
  | none ↦ ((false, false), s)
  | some r ↦ elim r.revoked_at [
    | some t ↦ ((true, false), s)
    | none ↦ (
      (true, true),
      record s { devices = update_where (has_device_id id) (revoke_row now reason) s.devices },
    )
  ]
]

-- `ORDER BY created_at, device_id`
unfoldable pub insert_by_age : DeviceEntry → List DeviceEntry → List DeviceEntry
insert_by_age r [] = r ∷ []
insert_by_age r (x ∷ xs) =
    if ltb x.created_at r.created_at
      || (x.created_at == r.created_at && text_lt x.device_id r.device_id)
    then x ∷ insert_by_age r xs
    else r ∷ x ∷ xs

unfoldable pub by_age : List DeviceEntry → List DeviceEntry
by_age [] = []
by_age (x ∷ xs) = insert_by_age x (by_age xs)

-- A device as the operator's listing shows it.
pub record DeviceRecord : Type 0 where
  pub device_id : Text
  pub name : Text
  pub created_at : Instant
  pub last_seen_at : Option Instant
  pub revoked_at : Option Instant
  pub revoked_reason : Option Text

abbrev pub to_record : DeviceEntry → DeviceRecord
to_record r = record {
  device_id = r.device_id;
  name = r.name;
  created_at = r.created_at;
  last_seen_at = r.last_seen_at;
  revoked_at = r.revoked_at;
  revoked_reason = r.revoked_reason;
}

unfoldable pub all_devices : DeviceStore → List DeviceRecord
all_devices s = map to_record (by_age s.devices)
