-- ===== src/DeviceAuth/Store/Keys.antt =====
-- The primary keys of store.py: no two rows of `pairing_codes`, and none of `devices`, share an id.
use us_stock_helper.Prelude.{
  ◌≤◌, Text, text_eq, eq-text_eq, ◌≡◌, refl, ap, sym, ◌∙◌, false, some, List, [], ◌∷◌, ◌++◌, arith,
  Bool-cases, inl, inr, exists, select, count_where, count_where-append, count_where-none,
  count_where-select_le, count_where-update_same,
}
use us_stock_helper.DeviceAuth.Store.Rows.{
  Instant, CodeEntry, DeviceEntry, DeviceStore, empty_store,
}
use us_stock_helper.DeviceAuth.Store.Codes.{
  NewCode, Claim, new_device, new_code, has_code_id, has_device_id, is_retained, is_claimable,
  insert_pairing_code, consume_code_and_register_device,
}
use us_stock_helper.DeviceAuth.Store.Attempts.{reserve_pairing_attempt, record_attempt_outcome}
use us_stock_helper.DeviceAuth.Store.Devices.{touch_device, revoke_device, revoke_row}
use us_stock_helper.DeviceAuth.Store.Calls.{
  StoreCall, insert_code, consume_code, reserve, record_outcome, touch, revoke, apply_call,
  run_calls, run_calls_induction,
}

abbrev CodesKeyed : List CodeEntry → Type 0
CodesKeyed rows = (id : Text) → count_where (has_code_id id) rows ≤ 1

abbrev DevicesKeyed : List DeviceEntry → Type 0
DevicesKeyed rows = (id : Text) → count_where (has_device_id id) rows ≤ 1

pub record IsKeyed (s : DeviceStore) : Type 0 where
  pub codes : (id : Text) → count_where (has_code_id id) s.pairing_codes ≤ 1
  pub devices : (id : Text) → count_where (has_device_id id) s.devices ≤ 1

-- A row whose key is not there yet may be added.
keyed-append :
    {A : Type 0} (key : A → Text) (rows : List A) (new : A) (id : Text)
    → exists (λ r. text_eq (key r) (key new)) rows ≡ false
    → count_where (λ r. text_eq (key r) id) rows ≤ 1
    → count_where (λ r. text_eq (key r) id) (rows ++ new ∷ []) ≤ 1
keyed-append key rows new id fresh h =
    rw (count_where-append (λ r. text_eq (key r) id) rows (new ∷ []))
      (elim (Bool-cases (text_eq (key new) id)) [
        | inr other ↦ ground (arith, h, other)
        | inl same ↦ ground (
          arith,
          same,
          count_where-none (λ r. text_eq (key r) id) rows
              (ap (λ k. exists (λ r. text_eq (key r) k) rows) (sym (eq-text_eq (key new) id same))
                ∙ fresh),
        )
      ])

module _ (s : DeviceStore) (h : IsKeyed s) (id : Text) where
  insert-codes :
      (c : NewCode) → count_where (has_code_id id) (insert_pairing_code c s).1.pairing_codes ≤ 1
  unfolding insert_pairing_code
  insert-codes c =
      let kept = select (is_retained c.created_at c.retain_codes_for) s.pairing_codes in
      ground (
        arith,
        h.codes id,
        keyed-append (λ (r : CodeEntry). r.code_id) kept (new_code c) id,
        count_where-select_le (is_retained c.created_at c.retain_codes_for) (has_code_id id)
            s.pairing_codes,
      )

  consume-codes :
      (c : Claim)
      → count_where (has_code_id id) (consume_code_and_register_device c s).1.pairing_codes ≤ 1
  unfolding consume_code_and_register_device
  consume-codes c = ground (
    arith,
    h.codes id,
    count_where-update_same (has_code_id id) (is_claimable c)
        (λ r. record r { consumed_at = some c.now }) (λ r. refl) s.pairing_codes,
  )

  consume-devices :
      (c : Claim)
      → count_where (has_device_id id) (consume_code_and_register_device c s).1.devices ≤ 1
  unfolding consume_code_and_register_device
  consume-devices c = ground (
    arith,
    h.devices id,
    keyed-append (λ (r : DeviceEntry). r.device_id) s.devices (new_device c) id,
  )

  touch-devices :
      (j : Text) (now : Instant) → count_where (has_device_id id) (touch_device j now s).devices ≤ 1
  unfolding touch_device
  touch-devices j now = ground (
    arith,
    h.devices id,
    count_where-update_same (has_device_id id) (has_device_id j)
        (λ r. record r { last_seen_at = some now }) (λ r. refl) s.devices,
  )

  revoke-devices :
      (j : Text) (now : Instant) (reason : Text)
      → count_where (has_device_id id) (revoke_device j now reason s).1.devices ≤ 1
  unfolding revoke_device
  revoke-devices j now reason = ground (
    arith,
    h.devices id,
    count_where-update_same (has_device_id id) (has_device_id j) (revoke_row now reason) (λ r. refl)
        s.devices,
  )

call-IsKeyed : (c : StoreCall) (s : DeviceStore) → IsKeyed s → IsKeyed (apply_call c s)
unfolding apply_call
call-IsKeyed (insert_code c) s h = record {
  codes = λ id. insert-codes s h id c;
  devices = λ id. unfold insert_pairing_code in ground (arith, h.devices id);
}
call-IsKeyed (consume_code c) s h = record {
  codes = λ id. consume-codes s h id c;
  devices = λ id. consume-devices s h id c;
}
call-IsKeyed (reserve q) s h = record {
  codes = λ id. unfold reserve_pairing_attempt in ground (arith, h.codes id);
  devices = λ id. unfold reserve_pairing_attempt in ground (arith, h.devices id);
}
call-IsKeyed (record_outcome j outcome) s h = record {
  codes = λ id. unfold record_attempt_outcome in h.codes id;
  devices = λ id. unfold record_attempt_outcome in h.devices id;
}
call-IsKeyed (touch j now) s h = record {
  codes = λ id. unfold touch_device in h.codes id;
  devices = λ id. touch-devices s h id j now;
}
call-IsKeyed (revoke j now reason) s h = record {
  codes = λ id. unfold revoke_device in ground (arith, h.codes id);
  devices = λ id. revoke-devices s h id j now reason;
}

-- From a store in which no two pairing codes and no two devices share an id, every sequence of
-- transactions leads to such a store.
pub run-IsKeyed :
    (calls : List StoreCall) (s : DeviceStore) → IsKeyed s → IsKeyed (run_calls calls s)
run-IsKeyed = run_calls_induction IsKeyed call-IsKeyed

pub IsKeyed-empty : IsKeyed empty_store
IsKeyed-empty = record { codes = λ id. omega arith; devices = λ id. omega arith }
