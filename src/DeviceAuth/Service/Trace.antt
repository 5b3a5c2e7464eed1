-- ===== src/DeviceAuth/Service/Trace.antt =====
-- Every method of service.py changes the store by transactions of store.py alone, so that what holds
-- of every run of transactions holds of every history of requests.
use us_stock_helper.Prelude.{
  ℕ, Text, ◌≡◌, refl, ap, ◌∙◌, Bool, true, false, Option, none, some, List, [], ◌∷◌, ◌++◌,
  if◌then◌else◌,
}
use us_stock_helper.DeviceAuth.Errors.{Result, ok, raised}
use us_stock_helper.DeviceAuth.Store.Rows.{Instant, DeviceStore, PairingCodeRow, DeviceSecretRow}
use us_stock_helper.DeviceAuth.Store.Codes.{
  NewCode, Claim, insert_pairing_code, consume_code_and_register_device,
}
use us_stock_helper.DeviceAuth.Store.Attempts.{
  Reservation, reserve_pairing_attempt, record_attempt_outcome,
}
use us_stock_helper.DeviceAuth.Store.Devices.{touch_device}
use us_stock_helper.DeviceAuth.Store.Devices as Table
use us_stock_helper.DeviceAuth.Store.Calls.{
  StoreCall, insert_code, consume_code, reserve, record_outcome, touch, revoke, apply_call,
  run_calls,
}
use us_stock_helper.DeviceAuth.Credentials.Codes.{PyValue, normalize_code}
use us_stock_helper.DeviceAuth.Credentials.Tokens.{split_token}
use us_stock_helper.DeviceAuth.Credentials.Digests.{Digests}
use us_stock_helper.DeviceAuth.Action.{Action, pure, lift, gets, call, modify, continue, ◌>>=◌}
use us_stock_helper.DeviceAuth.Service.Types.{DeviceAuthService, AttemptOutcome, require_text}
use us_stock_helper.DeviceAuth.Service.Operator.{CodeDraws, issue_pairing_code, revoke_device}
use us_stock_helper.DeviceAuth.Service.Device.{
  DeviceDraws, Decoy, refuse, match_code, answer_claim, claim_code, decide_match, try_code,
  reservation, use_slot, redeem_pairing_code, answer_token, verify_parts, verify_token,
}

-- `t` is what some run of transactions makes of `s`.
abbrev pub Runs : DeviceStore → DeviceStore → Type 0
Runs s t = (calls : List StoreCall) × (run_calls calls s ≡ t)

run_calls-append :
    (a b : List StoreCall) (s : DeviceStore) → run_calls (a ++ b) s ≡ run_calls b (run_calls a s)
unfolding run_calls
run_calls-append [] b s = refl
run_calls-append (c ∷ cs) b s = run_calls-append cs b (apply_call c s)

pub Runs-none : (s : DeviceStore) → Runs s s
unfolding run_calls
Runs-none s = ([], refl)

Runs-one : (c : StoreCall) (s : DeviceStore) → Runs s (apply_call c s)
unfolding run_calls
Runs-one c s = (c ∷ [], refl)

pub Runs-trans : (s t u : DeviceStore) → Runs s t → Runs t u → Runs s u
Runs-trans s t u (a, p) (b, q) = (a ++ b, run_calls-append a b s ∙ ap (run_calls b) p ∙ q)

-- Whatever the method returns or raises, the store that it leaves is such a run.
pub record IsTraced {A : Type 0} (m : Action A) : Type 0 where
  pub at : (s : DeviceStore) → Runs s (m s).1

module _ {A : Type 0} where
  IsTraced-pure : (a : A) → IsTraced (pure a)
  unfolding ◌>>=◌
  IsTraced-pure a = record { at = Runs-none }

  IsTraced-lift : (r : Result A) → IsTraced (lift r)
  unfolding ◌>>=◌
  IsTraced-lift r = record { at = Runs-none }

  IsTraced-gets : (f : DeviceStore → A) → IsTraced (gets f)
  unfolding ◌>>=◌
  IsTraced-gets f = record { at = Runs-none }

  IsTraced-if :
      (b : Bool) (m n : Action A) → IsTraced m → IsTraced n → IsTraced (if b then m else n)
  IsTraced-if true m n hm hn = hm
  IsTraced-if false m n hm hn = hn

continued :
    {A B : Type 0} (f : A → Action B) (s : DeviceStore) (r : Result A) (t : DeviceStore)
    → Runs s t
    → ((a : A) → IsTraced (f a))
    → Runs s (continue r f t).1
continued f s (ok a) t h hf = Runs-trans s t (f a t).1 h ((hf a).at t)
continued f s (raised e) t h hf = h

IsTraced-bind :
    {A B : Type 0} (m : Action A) (f : A → Action B)
    → IsTraced m
    → ((a : A) → IsTraced (f a))
    → IsTraced (m >>= f)
unfolding ◌>>=◌
IsTraced-bind m f hm hf = record { at = λ s. continued f s (m s).0 (m s).1 (hm.at s) hf }

IsTraced-outcome : (id : ℕ) (o : Text) → IsTraced (modify (record_attempt_outcome id o))
unfolding ◌>>=◌ apply_call
IsTraced-outcome id o = record { at = λ s. Runs-one (record_outcome id o) s }

IsTraced-touch : (id : Text) (now : Instant) → IsTraced (modify (touch_device id now))
unfolding ◌>>=◌ apply_call
IsTraced-touch id now = record { at = λ s. Runs-one (touch id now) s }

IsTraced-insert : (c : NewCode) → IsTraced (insert_pairing_code c)
unfolding apply_call
IsTraced-insert c = record { at = λ s. Runs-one (insert_code c) s }

IsTraced-consume : (c : Claim) → IsTraced (consume_code_and_register_device c)
unfolding apply_call
IsTraced-consume c = record { at = λ s. Runs-one (consume_code c) s }

IsTraced-reserve : (q : Reservation) → IsTraced (call (reserve_pairing_attempt q))
unfolding ◌>>=◌ apply_call
IsTraced-reserve q = record { at = λ s. Runs-one (reserve q) s }

IsTraced-revoke :
    (id : Text) (now : Instant) (why : Text) → IsTraced (call (Table.revoke_device id now why))
unfolding ◌>>=◌ apply_call
IsTraced-revoke id now why = record { at = λ s. Runs-one (revoke id now why) s }

ruleset traced_rules = (
  IsTraced-pure, IsTraced-lift, IsTraced-gets, IsTraced-if, IsTraced-bind, IsTraced-outcome,
  IsTraced-touch, IsTraced-insert, IsTraced-consume, IsTraced-reserve, IsTraced-revoke,
)

pub issue-IsTraced :
    (svc : DeviceAuthService) (d : Digests) (draws : CodeDraws) (now : Instant) (label : PyValue)
    → IsTraced (issue_pairing_code svc d draws now label)
unfolding issue_pairing_code
issue-IsTraced svc d draws now label = search traced_rules depth 12

pub revoke-IsTraced :
    (id : Text) (now : Instant) (reason : PyValue) → IsTraced (revoke_device id now reason)
unfolding revoke_device
revoke-IsTraced id now reason = search traced_rules

refuse-IsTraced : (id : ℕ) (o : AttemptOutcome) → IsTraced (refuse id o)
unfolding refuse
refuse-IsTraced id o = search traced_rules

answer_claim-IsTraced :
    (draws : DeviceDraws) (id : ℕ) (claimed : Bool) → IsTraced (answer_claim draws id claimed)
unfolding answer_claim
answer_claim-IsTraced draws id claimed = search (traced_rules, refuse-IsTraced)

claim_code-IsTraced :
    (d : Digests) (draws : DeviceDraws) (now : Instant) (id : ℕ) (matched : PairingCodeRow)
    → IsTraced (claim_code d draws now id matched)
unfolding claim_code
claim_code-IsTraced d draws now id matched = search (traced_rules, answer_claim-IsTraced)

decide_match-IsTraced :
    (d : Digests) (draws : DeviceDraws) (now : Instant) (id : ℕ) (matched : Option PairingCodeRow)
    → IsTraced (decide_match d draws now id matched)
unfolding decide_match
decide_match-IsTraced d draws now id none = refuse-IsTraced id _
decide_match-IsTraced d draws now id (some row) =
    search (traced_rules, refuse-IsTraced, claim_code-IsTraced)

match_code-IsTraced :
    (svc : DeviceAuthService) (d : Digests) (normalized : Text) (now : Instant)
    → IsTraced (match_code svc d normalized now)
unfolding match_code
match_code-IsTraced svc d normalized now = search traced_rules

try_code-IsTraced :
    (svc : DeviceAuthService) (d : Digests) (draws : DeviceDraws) (now : Instant) (id : ℕ)
    (normalized : Option Text)
    → IsTraced (try_code svc d draws now id normalized)
unfolding try_code
try_code-IsTraced svc d draws now id none = refuse-IsTraced id _
try_code-IsTraced svc d draws now id (some normalized) =
    search (traced_rules, match_code-IsTraced, decide_match-IsTraced)

use_slot-IsTraced :
    (svc : DeviceAuthService) (d : Digests) (draws : DeviceDraws) (now : Instant) (code : PyValue)
    (id : Option ℕ) (wait : Option ℕ)
    → IsTraced
        (use_slot svc d draws now code (record { attempt_id = id; retry_after_seconds = wait }))
unfolding use_slot
use_slot-IsTraced svc d draws now code none wait = IsTraced-pure _
use_slot-IsTraced svc d draws now code (some id) wait =
    try_code-IsTraced svc d draws now id (normalize_code code)

pub redeem-IsTraced :
    (svc : DeviceAuthService) (d : Digests) (draws : DeviceDraws) (now : Instant)
    (code client : PyValue)
    → IsTraced (redeem_pairing_code svc d draws now code client)
unfolding redeem_pairing_code
redeem-IsTraced svc d draws now code client =
    IsTraced-bind (lift (require_text client 100)) _ (IsTraced-lift (require_text client 100))
      λ checked.
        IsTraced-bind (call (reserve_pairing_attempt (reservation svc checked now))) _
          (IsTraced-reserve (reservation svc checked now))
          λ slot. use_slot-IsTraced svc d draws now code slot.attempt_id slot.retry_after_seconds

answer_token-IsTraced :
    (id : Text) (now : Instant) (found : Option DeviceSecretRow) (recognized : Bool)
    → IsTraced (answer_token id now found recognized)
unfolding answer_token
answer_token-IsTraced id now none recognized = IsTraced-pure _
answer_token-IsTraced id now (some found) recognized = search traced_rules

verify_parts-IsTraced :
    (d : Digests) (decoy : Decoy) (now : Instant) (parts : Option (Text × Text))
    → IsTraced (verify_parts d decoy now parts)
unfolding verify_parts
verify_parts-IsTraced d decoy now none = IsTraced-pure _
verify_parts-IsTraced d decoy now (some (id, secret)) = search (traced_rules, answer_token-IsTraced)

pub verify-IsTraced :
    (d : Digests) (decoy : Decoy) (now : Instant) (token : PyValue)
    → IsTraced (verify_token d decoy now token)
unfolding verify_token
verify-IsTraced d decoy now token = verify_parts-IsTraced d decoy now (split_token token)
