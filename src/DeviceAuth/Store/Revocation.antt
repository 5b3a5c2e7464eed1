-- ===== src/DeviceAuth/Store/Revocation.antt =====
-- Revocation in store.py is final.
use us_stock_helper.Prelude.{
  Text, ap, sym, update_where, ◌∙◌, [], ◌∷◌, eq-text_eq, ◌≡◌, refl, true, false, none, some, List,
  arith, inl, inr, Bool-cases, Option-cases, find, find-append, find-update_where, find_holds,
  if◌then◌else◌,
}
use us_stock_helper.DeviceAuth.Store.Rows.{Instant, DeviceEntry, DeviceStore}
use us_stock_helper.DeviceAuth.Store.Codes.{
  Claim, new_device, has_device_id, insert_pairing_code, consume_code_and_register_device,
}
use us_stock_helper.DeviceAuth.Store.Attempts.{reserve_pairing_attempt, record_attempt_outcome}
use us_stock_helper.DeviceAuth.Store.Devices.{touch_device, revoke_device, revoke_row}
use us_stock_helper.DeviceAuth.Store.Calls.{
  StoreCall, insert_code, consume_code, reserve, record_outcome, touch, revoke, apply_call,
  run_calls, run_calls_induction,
}

-- The row of a device, revoked at `t` for `reason`.
pub record IsRevoked (id : Text) (t : Instant) (reason : Text) (s : DeviceStore) : Type 0 where
  pub row : DeviceEntry
  pub found : find (has_device_id id) s.devices ≡ some row
  pub since : row.revoked_at ≡ some t
  pub why : row.revoked_reason ≡ some reason

module _ (id : Text) (t : Instant) (reason : Text) where
  -- Only the table of devices matters.
  of_same_devices :
      (s u : DeviceStore)
      → u.devices ≡ s.devices
      → IsRevoked id t reason s
      → IsRevoked id t reason u
  of_same_devices s u e h = record {
    row = h.row;
    found = ap (find (has_device_id id)) e ∙ h.found;
    since = h.since;
    why = h.why;
  }

  consume-IsRevoked :
      (c : Claim) (s : DeviceStore)
      → IsRevoked id t reason s
      → IsRevoked id t reason (consume_code_and_register_device c s).1
  unfolding consume_code_and_register_device
  consume-IsRevoked c s h = record {
    row = h.row;
    found =
        ground (arith, h.found, find-append (has_device_id id) s.devices (new_device c ∷ []) h.row);
    since = h.since;
    why = h.why;
  }

  touch-IsRevoked :
      (j : Text) (now : Instant) (s : DeviceStore)
      → IsRevoked id t reason s
      → IsRevoked id t reason (touch_device j now s)
  unfolding touch_device
  touch-IsRevoked j now s h = record {
    row = if has_device_id j h.row then record h.row { last_seen_at = some now } else h.row;
    found =
        find-update_where (has_device_id id) (has_device_id j)
          (λ r. record r { last_seen_at = some now }) (λ r. refl) s.devices h.row h.found;
    since = ground (arith, h.since);
    why = ground (arith, h.why);
  }

  -- A device that can still be revoked is another one.
  is_other_device :
      (j : Text) (s : DeviceStore) (r : DeviceEntry) (h : IsRevoked id t reason s)
      → find (has_device_id j) s.devices ≡ some r
      → r.revoked_at ≡ none
      → has_device_id j h.row ≡ false
  is_other_device j s r h e n = elim (Bool-cases (has_device_id j h.row)) [
    | inr other ↦ other
    | inl same ↦ absurd (
        let p : j ≡ id =
          sym (eq-text_eq h.row.device_id j same)
          ∙ eq-text_eq h.row.device_id id (find_holds (has_device_id id) s.devices h.row h.found) in
        cc (h.found, h.since, e, n, ap (λ k. find (has_device_id k) s.devices) p))
  ]

  revoke_row-IsRevoked :
      (j : Text) (now : Instant) (again : Text) (s : DeviceStore) (r : DeviceEntry)
      → IsRevoked id t reason s
      → find (has_device_id j) s.devices ≡ some r
      → r.revoked_at ≡ none
      → IsRevoked id t reason
          (record s { devices = update_where (has_device_id j) (revoke_row now again) s.devices })
  revoke_row-IsRevoked j now again s r h e n = record {
    row = h.row;
    found =
        find-update_where (has_device_id id) (has_device_id j) (revoke_row now again) (λ r. refl)
          s.devices h.row h.found
        ∙ rw (is_other_device j s r h e n) refl;
    since = h.since;
    why = h.why;
  }

  revoke-IsRevoked :
      (j : Text) (now : Instant) (again : Text) (s : DeviceStore)
      → IsRevoked id t reason s
      → IsRevoked id t reason (revoke_device j now again s).1
  unfolding revoke_device
  revoke-IsRevoked j now again s h = elim (Option-cases (find (has_device_id j) s.devices)) [
    | inl gone ↦ rw (gone, revoke_device) h
    | inr (r, e) ↦ elim (Option-cases r.revoked_at) [
      | inr (u, old) ↦ rw (e, old, revoke_device) h
      | inl new ↦ rw (e, new, revoke_device) (revoke_row-IsRevoked j now again s r h e new)
    ]
  ]

  -- A call on the table of devices that is none of these leaves the table alone.
  call-IsRevoked :
      (c : StoreCall) (s : DeviceStore)
      → IsRevoked id t reason s
      → IsRevoked id t reason (apply_call c s)
  unfolding apply_call insert_pairing_code reserve_pairing_attempt record_attempt_outcome
  call-IsRevoked (insert_code c) s h = of_same_devices s _ (ground arith) h
  call-IsRevoked (consume_code c) s h = consume-IsRevoked c s h
  call-IsRevoked (reserve q) s h = of_same_devices s _ (ground arith) h
  call-IsRevoked (record_outcome j outcome) s h = of_same_devices s _ refl h
  call-IsRevoked (touch j now) s h = touch-IsRevoked j now s h
  call-IsRevoked (revoke j now again) s h = revoke-IsRevoked j now again s h

-- Once a device is revoked, no sequence of the store's transactions changes that, nor the time and
-- the reason that stand with it.
pub run-IsRevoked :
    (id : Text) (t : Instant) (reason : Text) (calls : List StoreCall) (s : DeviceStore)
    → IsRevoked id t reason s
    → IsRevoked id t reason (run_calls calls s)
run-IsRevoked id t reason calls s h =
    run_calls_induction (IsRevoked id t reason) (call-IsRevoked id t reason) calls s h

-- A call of `revoke_device` that reports that it revoked the device has written the time and reason.
pub revoke_device-IsRevoked :
    (id : Text) (now : Instant) (reason : Text) (s : DeviceStore)
    → (revoke_device id now reason s).0 ≡ (true, true)
    → IsRevoked id now reason (revoke_device id now reason s).1
unfolding revoke_device
revoke_device-IsRevoked id now reason s h =
    elim (Option-cases (find (has_device_id id) s.devices)) [
      | inl gone ↦ absurd (ground (arith, h, gone))
      | inr (r, e) ↦ elim (Option-cases r.revoked_at) [
        | inr (u, old) ↦ absurd (ground (arith, h, e, old))
        | inl new ↦
            rw (e, new, revoke_device)
              (record {
                row = revoke_row now reason r;
                found =
                    find-update_where (has_device_id id) (has_device_id id) (revoke_row now reason)
                      (λ r. refl) s.devices r e
                    ∙ rw (find_holds (has_device_id id) s.devices r e) refl;
                since = refl;
                why = refl;
              })
      ]
    ]
