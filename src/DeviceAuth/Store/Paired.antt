-- ===== src/DeviceAuth/Store/Paired.antt =====
-- A device of store.py keeps its secret until it is revoked.
use us_stock_helper.Prelude.{
  ℕ, Text, text_eq, eq-text_eq, ap, sym, ◌∙◌, ◌≡◌, refl, true, false, none, some, List, [], ◌∷◌,
  arith, inl, inr, All, Bool-cases, find, find-append, find-append_new, find-update_where,
  find_holds, text_eq_refl, if◌then◌else◌,
}
use us_stock_helper.DeviceAuth.Errors.{ok}
use us_stock_helper.DeviceAuth.Store.Rows.{Instant, DeviceEntry, DeviceStore}
use us_stock_helper.DeviceAuth.Store.Codes.{
  Claim, new_device, has_device_id, insert_pairing_code, consume_code_and_register_device,
}
use us_stock_helper.DeviceAuth.Store.Attempts.{reserve_pairing_attempt, record_attempt_outcome}
use us_stock_helper.DeviceAuth.Store.Devices.{touch_device, revoke_device, revoke_row}
use us_stock_helper.DeviceAuth.Store.Calls.{
  StoreCall, insert_code, consume_code, reserve, record_outcome, touch, revoke, apply_call,
  run_calls,
}

-- The row of a device that is not revoked, with the digest of its secret.
pub record IsPaired (id salt digest algorithm : Text) (s : DeviceStore) : Type 0 where
  pub row : DeviceEntry
  pub found : find (has_device_id id) s.devices ≡ some row
  pub live : row.revoked_at ≡ none
  pub salted : row.salt ≡ salt
  pub hashed : row.token_hash ≡ digest
  pub by : row.algorithm ≡ algorithm

-- The call does not revoke this device.
abbrev pub IsNotRevocation : Text → StoreCall → Type 0
IsNotRevocation id (revoke j now reason) = text_eq j id ≡ false
IsNotRevocation id _ = Unit

module _ (id salt digest algorithm : Text) where
  of_same_devices :
      (s u : DeviceStore)
      → u.devices ≡ s.devices
      → IsPaired id salt digest algorithm s
      → IsPaired id salt digest algorithm u
  of_same_devices s u e h = record {
    row = h.row;
    found = ap (find (has_device_id id)) e ∙ h.found;
    live = h.live;
    salted = h.salted;
    hashed = h.hashed;
    by = h.by;
  }

  consume-IsPaired :
      (c : Claim) (s : DeviceStore)
      → IsPaired id salt digest algorithm s
      → IsPaired id salt digest algorithm (consume_code_and_register_device c s).1
  unfolding consume_code_and_register_device
  consume-IsPaired c s h = record {
    row = h.row;
    found =
        ground (arith, h.found, find-append (has_device_id id) s.devices (new_device c ∷ []) h.row);
    live = h.live;
    salted = h.salted;
    hashed = h.hashed;
    by = h.by;
  }

  touch-IsPaired :
      (j : Text) (now : Instant) (s : DeviceStore)
      → IsPaired id salt digest algorithm s
      → IsPaired id salt digest algorithm (touch_device j now s)
  unfolding touch_device
  touch-IsPaired j now s h = record {
    row = if has_device_id j h.row then record h.row { last_seen_at = some now } else h.row;
    found =
        find-update_where (has_device_id id) (has_device_id j)
          (λ r. record r { last_seen_at = some now }) (λ r. refl) s.devices h.row h.found;
    live = ground (arith, h.live);
    salted = ground (arith, h.salted);
    hashed = ground (arith, h.hashed);
    by = ground (arith, h.by);
  }

  is_other_row :
      (j : Text) (s : DeviceStore) (h : IsPaired id salt digest algorithm s)
      → text_eq j id ≡ false
      → has_device_id j h.row ≡ false
  is_other_row j s h ne = elim (Bool-cases (has_device_id j h.row)) [
    | inr other ↦ other
    | inl same ↦ absurd (
        let p : j ≡ id =
          sym (eq-text_eq h.row.device_id j same)
          ∙ eq-text_eq h.row.device_id id (find_holds (has_device_id id) s.devices h.row h.found) in
        cc (ne, ap (λ k. text_eq k id) p, text_eq_refl id))
  ]

  revoke-IsPaired :
      (j : Text) (now : Instant) (why : Text) (s : DeviceStore)
      → text_eq j id ≡ false
      → IsPaired id salt digest algorithm s
      → IsPaired id salt digest algorithm (revoke_device j now why s).1
  unfolding revoke_device
  revoke-IsPaired j now why s ne h = record {
    row = h.row;
    found = ground (
      arith,
      h.found,
      is_other_row j s h ne,
      find-update_where (has_device_id id) (has_device_id j) (revoke_row now why) (λ r. refl)
          s.devices h.row,
    );
    live = h.live;
    salted = h.salted;
    hashed = h.hashed;
    by = h.by;
  }

  call-IsPaired :
      (c : StoreCall) (s : DeviceStore)
      → IsNotRevocation id c
      → IsPaired id salt digest algorithm s
      → IsPaired id salt digest algorithm (apply_call c s)
  unfolding apply_call insert_pairing_code reserve_pairing_attempt record_attempt_outcome
  call-IsPaired (insert_code c) s n h = of_same_devices s _ (ground arith) h
  call-IsPaired (consume_code c) s n h = consume-IsPaired c s h
  call-IsPaired (reserve q) s n h = of_same_devices s _ (ground arith) h
  call-IsPaired (record_outcome j outcome) s n h = of_same_devices s _ refl h
  call-IsPaired (touch j now) s n h = touch-IsPaired j now s h
  call-IsPaired (revoke j now why) s n h = revoke-IsPaired j now why s n h

  -- A device keeps its secret, and stays unrevoked, through all transactions that do not revoke it.
  pub run-IsPaired :
      (calls : List StoreCall) (s : DeviceStore)
      → All (IsNotRevocation id) calls
      → IsPaired id salt digest algorithm s
      → IsPaired id salt digest algorithm (run_calls calls s)
  unfolding run_calls
  run-IsPaired [] s n h = h
  run-IsPaired (c ∷ cs) s n h = run-IsPaired cs (apply_call c s) n.1 (call-IsPaired c s n.0 h)

  pub outcome-IsPaired :
      (attempt : ℕ) (outcome : Text) (s : DeviceStore)
      → IsPaired id salt digest algorithm s
      → IsPaired id salt digest algorithm (record_attempt_outcome attempt outcome s)
  unfolding record_attempt_outcome
  outcome-IsPaired attempt outcome s h = of_same_devices s _ refl h

-- A claim that succeeds pairs the device.
pub claim-IsPaired :
    (c : Claim) (s : DeviceStore)
    → (consume_code_and_register_device c s).0 ≡ ok true
    → IsPaired c.device_id c.salt c.digest c.algorithm (consume_code_and_register_device c s).1
unfolding consume_code_and_register_device
claim-IsPaired c s h = record {
  row = new_device c;
  found = ground (
    arith,
    h,
    text_eq_refl c.device_id,
    find-append_new (has_device_id c.device_id) s.devices (new_device c),
  );
  live = refl;
  salted = refl;
  hashed = refl;
  by = refl;
}
