-- ===== src/DeviceAuth/Store/SingleUse.antt =====
-- A pairing code of store.py pairs one device at most.
use us_stock_helper.Prelude.{
  ℕ, ◌+◌, ◌≤◌, Text, text_eq, ◌≡◌, Bool, true, false, ◌&&◌, List, [], ◌∷◌, some, arith, All, select,
  update_where, count_where, count_where-append, count_where_mono, count_where-select_le,
  count_where-update_where,
}
use us_stock_helper.DeviceAuth.Errors.{ok}
use us_stock_helper.DeviceAuth.Store.Rows.{CodeEntry, DeviceStore}
use us_stock_helper.DeviceAuth.Store.Codes.{
  NewCode, Claim, new_code, has_code_id, is_none, is_retained, is_claimable, insert_pairing_code,
  consume_code_and_register_device,
}
use us_stock_helper.DeviceAuth.Store.Attempts.{reserve_pairing_attempt, record_attempt_outcome}
use us_stock_helper.DeviceAuth.Store.Devices.{touch_device, revoke_device}
use us_stock_helper.DeviceAuth.Store.Calls.{
  StoreCall, insert_code, consume_code, reserve, record_outcome, touch, revoke, apply_call,
  run_calls,
}
use us_stock_helper.DeviceAuth.Store.Keys.{IsKeyed}

abbrev is_unclaimed : Text → CodeEntry → Bool
is_unclaimed id r = has_code_id id r && is_none r.consumed_at

-- The rows of a code that no device has claimed yet.
abbrev pub unclaimed : Text → DeviceStore → ℕ
unclaimed id s = count_where (is_unclaimed id) s.pairing_codes

-- The call does not issue another code under the same id.
abbrev pub IsNotReissue : Text → StoreCall → Type 0
IsNotReissue id (insert_code c) = text_eq c.code_id id ≡ false
IsNotReissue id _ = Unit

insert-unclaimed :
    (id : Text) (c : NewCode) (s : DeviceStore)
    → text_eq c.code_id id ≡ false
    → unclaimed id (insert_pairing_code c s).1 ≤ unclaimed id s
unfolding insert_pairing_code
insert-unclaimed id c s h =
    let kept = select (is_retained c.created_at c.retain_codes_for) s.pairing_codes in
    ground (
      arith,
      count_where-append (is_unclaimed id) kept (new_code c ∷ []),
      count_where-select_le (is_retained c.created_at c.retain_codes_for) (is_unclaimed id)
          s.pairing_codes,
    )

claimed_row :
    (id : Text) (c : Claim) (r : CodeEntry)
    → is_unclaimed id (record r { consumed_at = some c.now }) ≡ true
    → is_unclaimed id r ≡ true
claimed_row id c r h = ground arith

consume-unclaimed :
    (id : Text) (c : Claim) (s : DeviceStore)
    → unclaimed id (consume_code_and_register_device c s).1 ≤ unclaimed id s
unfolding consume_code_and_register_device
consume-unclaimed id c s = ground (
  arith,
  count_where-update_where (is_unclaimed id) (is_claimable c)
      (λ r. record r { consumed_at = some c.now }) (λ r _. claimed_row id c r) s.pairing_codes,
)

call-unclaimed :
    (id : Text) (c : StoreCall) (s : DeviceStore)
    → IsNotReissue id c
    → unclaimed id (apply_call c s) ≤ unclaimed id s
unfolding apply_call
call-unclaimed id (insert_code c) s h = insert-unclaimed id c s h
call-unclaimed id (consume_code c) s h = consume-unclaimed id c s
call-unclaimed id (reserve q) s h = unfold reserve_pairing_attempt in ground arith
call-unclaimed id (record_outcome j outcome) s h = unfold record_attempt_outcome in omega arith
call-unclaimed id (touch j now) s h = unfold touch_device in omega arith
call-unclaimed id (revoke j now reason) s h = unfold revoke_device in ground arith

run-unclaimed :
    (id : Text) (calls : List StoreCall) (s : DeviceStore)
    → All (IsNotReissue id) calls
    → unclaimed id (run_calls calls s) ≤ unclaimed id s
unfolding run_calls
run-unclaimed id [] s h = omega arith
run-unclaimed id (c ∷ cs) s h =
    omega (arith, call-unclaimed id c s h.0, run-unclaimed id cs (apply_call c s) h.1)

-- Every row of the claimed code that could be claimed now is claimed.
update-unclaimed :
    (c : Claim) (rows : List CodeEntry)
    → count_where
          (is_unclaimed c.code_id)
          (update_where (is_claimable c) (λ r. record r { consumed_at = some c.now }) rows)
        + count_where (is_claimable c) rows
      ≤ count_where (has_code_id c.code_id) rows
update-unclaimed c [] = omega arith
update-unclaimed c (r ∷ rs) = ground (arith, update-unclaimed c rs)

claim-unclaimed :
    (c : Claim) (s : DeviceStore)
    → IsKeyed s
    → (consume_code_and_register_device c s).0 ≡ ok true
    → unclaimed c.code_id (consume_code_and_register_device c s).1 ≡ 0
unfolding consume_code_and_register_device
claim-unclaimed c s k h = ground (arith, k.codes c.code_id, update-unclaimed c s.pairing_codes)

-- Only an unclaimed row can be claimed.
no_claim :
    (c : Claim) (s : DeviceStore)
    → unclaimed c.code_id s ≡ 0
    → (consume_code_and_register_device c s).0 ≡ ok false
unfolding consume_code_and_register_device
no_claim c s h = ground (
  arith,
  count_where_mono (is_claimable c) (is_unclaimed c.code_id) (λ r e. ground arith) s.pairing_codes,
)

-- In a store with distinct ids, once a claim of a code succeeds, every later claim of that code is
-- told that it lost, at whatever times the claims are made and whatever transactions run in
-- between, as long as none of these issues a new code under the same id.
pub single_use :
    (c d : Claim) (s : DeviceStore) (calls : List StoreCall)
    → IsKeyed s
    → (consume_code_and_register_device c s).0 ≡ ok true
    → c.code_id ≡ d.code_id
    → All (IsNotReissue c.code_id) calls
    → (consume_code_and_register_device d
        (run_calls calls (consume_code_and_register_device c s).1)).0
      ≡ ok false
single_use c d s calls k won same fresh =
    let t = (consume_code_and_register_device c s).1 in
    no_claim d (run_calls calls t) (
      rw (← same) (omega (arith, claim-unclaimed c s k won, run-unclaimed c.code_id calls t fresh)))
