-- ===== src/DeviceAuth/Store/Calls.antt =====
-- The transactions of store.py that write, and runs of them in any order. Each operation opens its
-- own connection and takes the database's write lock, so every interleaving of the threads and
-- processes that share a store is such a run.
use us_stock_helper.Prelude.{ℕ, Text, List, [], ◌∷◌}
use us_stock_helper.DeviceAuth.Store.Rows.{Instant, DeviceStore}
use us_stock_helper.DeviceAuth.Store.Codes.{
  NewCode, Claim, insert_pairing_code, consume_code_and_register_device,
}
use us_stock_helper.DeviceAuth.Store.Attempts.{
  Reservation, reserve_pairing_attempt, record_attempt_outcome,
}
use us_stock_helper.DeviceAuth.Store.Devices.{touch_device, revoke_device}

pub data StoreCall : Type 0 where
  insert_code : NewCode → StoreCall
  consume_code : Claim → StoreCall
  reserve : Reservation → StoreCall
  record_outcome : ℕ → Text → StoreCall
  touch : Text → Instant → StoreCall
  revoke : Text → Instant → Text → StoreCall

-- The store that a call leaves, whether it returns or raises.
unfoldable pub apply_call : StoreCall → DeviceStore → DeviceStore
apply_call (insert_code c) s = (insert_pairing_code c s).1
apply_call (consume_code c) s = (consume_code_and_register_device c s).1
apply_call (reserve q) s = (reserve_pairing_attempt q s).1
apply_call (record_outcome id outcome) s = record_attempt_outcome id outcome s
apply_call (touch id now) s = touch_device id now s
apply_call (revoke id now reason) s = (revoke_device id now reason s).1

unfoldable pub run_calls : List StoreCall → DeviceStore → DeviceStore
run_calls [] s = s
run_calls (c ∷ cs) s = run_calls cs (apply_call c s)

-- An invariant of every call is one of every run.
pub run_calls_induction :
    (P : DeviceStore → Type 0)
    → ((c : StoreCall) (s : DeviceStore) → P s → P (apply_call c s))
    → (cs : List StoreCall) (s : DeviceStore) → P s
    → P (run_calls cs s)
unfolding run_calls
run_calls_induction P step [] s h = h
run_calls_induction P step (c ∷ cs) s h =
    run_calls_induction P step cs (apply_call c s) (step c s h)
