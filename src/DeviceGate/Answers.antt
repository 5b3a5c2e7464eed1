-- ===== src/DeviceGate/Answers.antt =====
-- device_gate.py: what its answers tell a caller.
use us_stock_helper.Prelude.{
  ℕ, Text, codes, text_eq, ◌≡◌, refl, ap, Bool-cases, true, false, Option, none, some, List, [],
  inl, inr, ◌⊎◌,
}
use us_stock_helper.DeviceAuth.Errors.{ErrorCode, Result, ok, raised}
use us_stock_helper.DeviceAuth.Store.Rows.{Instant, DeviceStore}
use us_stock_helper.DeviceAuth.Credentials.Codes.{PyValue, text}
use us_stock_helper.DeviceAuth.Credentials.Tokens.{format_token}
use us_stock_helper.DeviceAuth.Credentials.Digests.{Digests}
use us_stock_helper.DeviceAuth.Service.Types.{
  DeviceAuthService, PairingOutcome, TokenVerification, authorized, code_refused, code_throttled,
}
use us_stock_helper.DeviceAuth.Service.Device.{
  DeviceDraws, Decoy, redeem_pairing_code, verify_token,
}
use us_stock_helper.DeviceAuth.Service.Tokens.{HasSecret}
use us_stock_helper.DeviceAuth.Service.Redeem.{Unchanged, Answers, redeem-Answers}
use us_stock_helper.DeviceGate.{
  DeviceAuthority, Answer, Payload, object, value, get_field, not_an_attempt, attempt, error,
  paired, answer, not_json, pairing_unavailable, auth_unavailable, auth_required, retry_headers,
  bearer_token, refusal_of, refusal, attempt_of, read_attempt, outcome_answer, redeem_attempt,
  redeem,
}

-- The service behind the boundary, for one request.
abbrev pub service_authority :
    DeviceAuthService → Digests → Decoy → DeviceDraws → Instant → DeviceAuthority
service_authority svc d decoy draws now = record {
  redeem_pairing_code = redeem_pairing_code svc d draws now;
  verify_token = verify_token d decoy now;
}

abbrev pub invalid_code : Answer
invalid_code = answer 400 (codes "INVALID_PAIRING_CODE") code_refused

abbrev pub rate_limited : Option ℕ → Answer
rate_limited wait = record {
  status = 429;
  headers = retry_headers wait;
  body = error (codes "RATE_LIMITED") code_throttled;
}

abbrev pub paired_answer : DeviceDraws → Answer
paired_answer draws = record {
  status = 200;
  headers = [];
  body = paired draws.device_id (format_token draws.device_id draws.secret);
}

-- The answers that a caller can get for a guess.
abbrev pub Told : Digests → DeviceDraws → DeviceStore → Answer × DeviceStore → Type 0
Told d draws s (a, t) =
    ((a ≡ pairing_unavailable) × Unchanged s t)
    ⊎ ((a ≡ invalid_code) × Unchanged s t)
    ⊎ ((wait : Option ℕ) × (a ≡ rate_limited wait) × Unchanged s t)
    ⊎ ((a ≡ paired_answer draws) × HasSecret d draws.device_id draws.secret t)

told :
    (d : Digests) (draws : DeviceDraws) (s : DeviceStore) (r : Result PairingOutcome)
    (t : DeviceStore)
    → Answers d draws s (r, t)
    → Told d draws s (outcome_answer r, t)
unfolding outcome_answer text_eq
told d draws s (raised e) t h = inl (refl, h)
told d draws s (ok o) t (inl (e, h)) = inr (inl (ap (λ x. outcome_answer (ok x)) e, h))
told d draws s (ok o) t (inr (inl (wait, e, h))) =
    inr (inr (inl (wait, ap (λ x. outcome_answer (ok x)) e, h)))
told d draws s (ok o) t (inr (inr (e, h))) = inr (inr (inr (ap (λ x. outcome_answer (ok x)) e, h)))

-- However a guess fails, the caller is told one of three things, which do not depend on why: that the
-- store cannot be read, that the code is not valid, or that there were too many attempts. In these
-- cases no device and no code has changed. Otherwise it gets the drawn token, and the store holds
-- the digest of its secret for a device that is not revoked.
pub redeem_tells :
    (svc : DeviceAuthService) (d : Digests) (decoy : Decoy) (draws : DeviceDraws) (now : Instant)
    (code : PyValue) (client : Text) (s : DeviceStore)
    → Told d draws s
        (redeem_attempt (service_authority svc d decoy draws now) (attempt code) client s)
unfolding redeem_attempt
redeem_tells svc d decoy draws now code client s =
    told d draws s (redeem_pairing_code svc d draws now code (text client) s).0
      (redeem_pairing_code svc d draws now code (text client) s).1
      (redeem-Answers svc d draws now code (text client) s)

-- A body that is no JSON object is answered so, and spends no slot: the store is as it was. A body
-- that is an object is a guess at the field `pairingCode`, also when it has none.
pub body_is_attempt :
    (auth : DeviceAuthority) (loads : Text → Option Payload) (body client : Text) (s : DeviceStore)
    → ((read_attempt loads body ≡ not_an_attempt)
        × (redeem auth loads body client s ≡ (not_json, s)))
      ⊎ ((code : PyValue) × (fields : List (Text × PyValue)) × (loads body ≡ some (object fields))
          × (code ≡ get_field (codes "pairingCode") fields)
          × (redeem auth loads body client s ≡ (
            outcome_answer (auth.redeem_pairing_code code (text client) s).0,
            (auth.redeem_pairing_code code (text client) s).1,
          )))
unfolding redeem redeem_attempt read_attempt
body_is_attempt auth loads body client s = of_payload (loads body) refl
  where
    of_payload :
        (p : Option Payload)
        → loads body ≡ p
        → ((attempt_of p ≡ not_an_attempt)
            × (redeem_attempt auth (attempt_of p) client s ≡ (not_json, s)))
          ⊎ ((code : PyValue) × (fields : List (Text × PyValue)) × (loads body
                ≡ some (object fields))
              × (code ≡ get_field (codes "pairingCode") fields)
              × (redeem_attempt auth (attempt_of p) client s ≡ (
                outcome_answer (auth.redeem_pairing_code code (text client) s).0,
                (auth.redeem_pairing_code code (text client) s).1,
              )))
    of_payload none e = inl (refl, refl)
    of_payload (some (object fields)) e =
        inr (get_field (codes "pairingCode") fields, fields, e, refl, refl)
    of_payload (some value) e = inl (refl, refl)

by_result :
    (r : Result TokenVerification)
    → ((v : TokenVerification) × (r ≡ ok v) × (authorized v ≡ true) × (refusal_of r ≡ none))
      ⊎ ((v : TokenVerification) × (r ≡ ok v)
          × (authorized v ≡ false)
          × (refusal_of r ≡ some auth_required))
      ⊎ ((e : ErrorCode) × (r ≡ raised e) × (refusal_of r ≡ some auth_unavailable))
unfolding refusal_of
by_result (raised e) = inr (inr (e, refl, refl))
by_result (ok v) = elim (Bool-cases (authorized v)) [
  | inl good ↦ inl (v, refl, good, rw good refl)
  | inr bad ↦ inr (inl (v, refl, bad, rw bad refl))
]

-- A read proceeds exactly when the token in the header verifies; a store that cannot be read is not
-- reported as a bad token.
pub refusal_exact :
    (auth : DeviceAuthority) (authorization : Option Text) (s : DeviceStore)
    → let r = (auth.verify_token (text (bearer_token authorization)) s).0 in
      ((v : TokenVerification) × (r ≡ ok v)
        × (authorized v ≡ true)
        × ((refusal auth authorization s).0 ≡ none))
      ⊎ ((v : TokenVerification) × (r ≡ ok v)
          × (authorized v ≡ false)
          × ((refusal auth authorization s).0 ≡ some auth_required))
      ⊎ ((e : ErrorCode) × (r ≡ raised e)
          × ((refusal auth authorization s).0 ≡ some auth_unavailable))
unfolding refusal
refusal_exact auth authorization s =
    by_result (auth.verify_token (text (bearer_token authorization)) s).0
