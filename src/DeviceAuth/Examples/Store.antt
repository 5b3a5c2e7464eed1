-- ===== src/DeviceAuth/Examples/Store.antt =====
-- store.py: tests, and the theorems at concrete inputs.
use us_stock_helper.Prelude.{
  ℕ, ◌*◌, ◌≤◌, codes, text_eq, ◌≡◌, refl, true, false, some, List, [], ◌∷◌, inl, arith, Any,
  count_where,
}
use us_stock_helper.DeviceAuth.Errors.{ok}
use us_stock_helper.DeviceAuth.Store.Rows.{CodeEntry, DeviceStore, empty_store}
use us_stock_helper.DeviceAuth.Store.Codes.{
  NewCode, Claim, new_code, to_row, insert_pairing_code, consume_code_and_register_device,
  candidate_pairing_codes,
}
use us_stock_helper.DeviceAuth.Store.Attempts.{
  Reservation, oldest, seconds_until_free, in_window, reserve_pairing_attempt,
}
use us_stock_helper.DeviceAuth.Store.Devices.{revoke_device}
use us_stock_helper.DeviceAuth.Store.Calls.{
  StoreCall, insert_code, consume_code, reserve, touch, apply_call, run_calls,
}
use us_stock_helper.DeviceAuth.Store.Keys.{IsKeyed, run-IsKeyed, IsKeyed-empty}
use us_stock_helper.DeviceAuth.Store.SingleUse.{single_use}
use us_stock_helper.DeviceAuth.Store.Candidates.{live_code_is_candidate}
use us_stock_helper.DeviceAuth.Store.Window.{
  Policy, grants, grant_in_window, call_grants, rate_limit,
}
use us_stock_helper.DeviceAuth.Store.Retry.{retry_succeeds}

abbrev second : ℕ
second = 1000000

abbrev first_code : NewCode
first_code = record {
  code_id = codes "c1";
  salt = codes "s";
  digest = codes "h";
  kdf = codes "k";
  label = codes "phone";
  created_at = 100 * second;
  expires_at = 700 * second;
  live_code_limit = 5;
  retain_codes_for = 3600 * second;
}

abbrev first_claim : Claim
first_claim = record {
  code_id = codes "c1";
  now = 200 * second;
  device_id = codes "d1";
  name = codes "phone";
  salt = codes "t";
  digest = codes "g";
  algorithm = codes "hmac-sha256";
}

abbrev second_claim : Claim
second_claim = record first_claim { now = 201 * second; device_id = codes "d2" }

abbrev attempt_at : ℕ → Reservation
attempt_at n = record {
  client_id = codes "10.0.0.1";
  now = n * second;
  limit = 2;
  window = 60 * second;
  retain_attempts_for = 86400 * second;
  pending_outcome = codes "unknown";
}

abbrev issued : DeviceStore
issued = run_calls (insert_code first_code ∷ []) empty_store

issued-IsKeyed : IsKeyed issued
issued-IsKeyed = run-IsKeyed (insert_code first_code ∷ []) empty_store IsKeyed-empty

run-IsKeyed_example : IsKeyed (run_calls (consume_code first_claim ∷ []) issued)
run-IsKeyed_example = run-IsKeyed (consume_code first_claim ∷ []) issued issued-IsKeyed

first_claim_wins : (consume_code_and_register_device first_claim issued).0 ≡ ok true
unfolding consume_code_and_register_device run_calls apply_call insert_pairing_code text_eq
first_claim_wins = refl

single_use_example :
    (consume_code_and_register_device second_claim (
      run_calls
        (touch (codes "d1") 5 ∷ [])
        (consume_code_and_register_device first_claim issued).1)).0
    ≡ ok false
single_use_example =
    single_use first_claim second_claim issued (touch (codes "d1") 5 ∷ []) issued-IsKeyed
      first_claim_wins refl (tt, tt)

abbrev paired_store : DeviceStore
paired_store = (consume_code_and_register_device first_claim issued).1

revokes : (revoke_device (codes "d1") 300 (codes "lost") paired_store).0 ≡ (true, true)
unfolding revoke_device consume_code_and_register_device run_calls apply_call insert_pairing_code
    text_eq
revokes = refl

abbrev revoked_store : DeviceStore
revoked_store = (revoke_device (codes "d1") 300 (codes "lost") paired_store).1

abbrev two_a_minute : Policy
two_a_minute = record { limit = 2; window = 60 * second; retain = 86400 * second }

abbrev knocks : List StoreCall
knocks =
    reserve (attempt_at 100)
    ∷ reserve (attempt_at 110)
    ∷ insert_code first_code
    ∷ reserve (attempt_at 120)
    ∷ reserve (attempt_at 161)
    ∷ []

-- The third knock is throttled, and the fourth is granted.
knocks_granted :
    count_where
      (grant_in_window (codes "10.0.0.1") (161 * second) (1000 * second))
      (grants knocks empty_store)
    ≡ 3
unfolding grants call_grants apply_call reserve_pairing_attempt insert_pairing_code text_eq
knocks_granted = refl

rate_limit_example :
    count_where
      (grant_in_window (codes "10.0.0.1") (161 * second) (60 * second))
      (grants knocks empty_store)
    ≤ 2
rate_limit_example =
    rate_limit two_a_minute knocks 0 (161 * second) (codes "10.0.0.1") (omega arith) (omega arith)
      (omega arith)

abbrev busy : DeviceStore
busy = run_calls (reserve (attempt_at 100) ∷ reserve (attempt_at 110) ∷ []) empty_store

throttled_wait : (reserve_pairing_attempt (attempt_at 120) busy).0.retry_after_seconds ≡ some 40
unfolding reserve_pairing_attempt oldest seconds_until_free run_calls apply_call text_eq
throttled_wait = refl

busy_count :
    count_where (in_window (codes "10.0.0.1") (120 * second) (60 * second)) busy.pairing_attempts
    ≡ 2
unfolding reserve_pairing_attempt run_calls apply_call text_eq
busy_count = refl

retry_succeeds_example :
    (reserve_pairing_attempt
      (attempt_at 160)
      (reserve_pairing_attempt (attempt_at 120) busy).1).0.attempt_id
    ≡ some busy.next_attempt_id
unfolding reserve_pairing_attempt run_calls apply_call text_eq
retry_succeeds_example =
    retry_succeeds (attempt_at 120) (attempt_at 160) busy 40 throttled_wait refl refl refl
      (omega arith) (omega arith) (omega (arith, busy_count)) (omega arith)

abbrev first_entry : CodeEntry
first_entry = new_code first_code

abbrev issued_codes : DeviceStore
issued_codes = record empty_store { pairing_codes = first_entry ∷ [] }

live_code_is_candidate_example :
    Any
      (λ r. to_row first_entry ≡ r)
      (candidate_pairing_codes (200 * second) (3600 * second) issued_codes)
unfolding new_code
live_code_is_candidate_example =
    live_code_is_candidate (200 * second) (3600 * second) issued_codes first_entry (omega arith)
      refl (inl refl)
