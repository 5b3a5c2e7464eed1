-- ===== src/DeviceAuth/Service/Tokens.antt =====
-- service.py: a token that was handed out verifies until its device is revoked, and never again after
-- that.
use us_stock_helper.Prelude.{
  Text, text_eq, text_eq_refl, ◌≡◌, refl, ap, sym, ◌∙◌, Bool, true, false, none, some, List, arith,
  inl, inr, ◌⊎◌, All, Bool-cases,
}
use us_stock_helper.DeviceAuth.Errors.{ErrorCode, Result, ok, raised, schema_unsupported}
use us_stock_helper.DeviceAuth.Store.Rows.{Instant, DeviceStore, DeviceSecretRow}
use us_stock_helper.DeviceAuth.Store.Devices.{device_secret, to_secret, touch_device}
use us_stock_helper.DeviceAuth.Store.Calls.{StoreCall, run_calls}
use us_stock_helper.DeviceAuth.Store.Revocation.{IsRevoked, run-IsRevoked, revoke_device-IsRevoked}
use us_stock_helper.DeviceAuth.Store.Paired.{IsPaired, IsNotRevocation, run-IsPaired}
use us_stock_helper.DeviceAuth.Credentials.Codes.{PyValue, text}
use us_stock_helper.DeviceAuth.Credentials.Tokens.{format_token, split_token}
use us_stock_helper.DeviceAuth.Credentials.Tokens.Split.{IsTokenPart, split-format}
use us_stock_helper.DeviceAuth.Credentials.Digests.{Digests, token_hash, token_algorithm}
use us_stock_helper.DeviceAuth.Action.{◌>>=◌}
use us_stock_helper.DeviceAuth.Service.Types.{revoked, require_text}
use us_stock_helper.DeviceAuth.Service.Operator.{revoke_device, revocation_result}
use us_stock_helper.DeviceAuth.Service.Device.{
  Decoy, refused_token, answer_token, verify_parts, verify_token,
}

-- The secret of a device whose row holds the digest of it.
abbrev pub HasSecret : Digests → Text → Text → DeviceStore → Type 0
HasSecret d id secret s =
    (salt : Text) × IsPaired id salt (d.hmac_sha256 salt secret) token_algorithm s

pub Result-cases :
    {A : Type 0} (r : Result A) → ((a : A) × (r ≡ ok a)) ⊎ ((c : ErrorCode) × (r ≡ raised c))
Result-cases (ok a) = inl (a, refl)
Result-cases (raised c) = inr (c, refl)

revoked_answer :
    (answer : Bool × Bool) → ok (revocation_result answer) ≡ ok revoked → answer ≡ (true, true)
revoked_answer (false, false) h = cc
revoked_answer (false, true) h = cc
revoked_answer (true, false) h = cc
revoked_answer (true, true) h = refl

module _ (d : Digests) (decoy : Decoy) (now : Instant) (s : DeviceStore) where
  paired_secret :
      (id secret : Text)
      → HasSecret d id secret s
      → (row : DeviceSecretRow) × (device_secret id s ≡ some row)
        × (row.revoked_at ≡ none)
        × (row.algorithm ≡ token_algorithm)
        × (row.token_hash ≡ d.hmac_sha256 row.salt secret)
  unfolding device_secret
  paired_secret id secret (salt, h) = (
    to_secret h.row,
    rw (h.found, device_secret),
    h.live,
    h.by,
    h.hashed ∙ ap (λ x. d.hmac_sha256 x secret) (sym h.salted),
  )

  -- The right secret of a device that is not revoked is accepted, and the device is touched.
  verify_parts-accepts :
      (id secret : Text)
      → HasSecret d id secret s
      → verify_parts d decoy now (some (id, secret)) s
        ≡ (ok (record { device_id = some id; reason = none }), touch_device id now s)
  unfolding verify_parts token_hash answer_token ◌>>=◌
  verify_parts-accepts id secret h =
      let (row, found, live, by, hashed) = paired_secret id secret h in
      rw (found, by, text_eq_refl token_algorithm)
        (rw (← hashed) (rw (text_eq_refl row.token_hash, live) refl))

  -- No secret is accepted for a device that is revoked: nothing is touched.
  verify_parts-refuses :
      (id secret reason : Text) (t : Instant)
      → IsRevoked id t reason s
      → (verify_parts d decoy now (some (id, secret)) s ≡ (ok refused_token, s))
        ⊎ (verify_parts d decoy now (some (id, secret)) s ≡ (raised schema_unsupported, s))
  unfolding verify_parts token_hash answer_token device_secret ◌>>=◌
  verify_parts-refuses id secret reason t h =
      elim (Bool-cases (text_eq h.row.algorithm token_algorithm)) [
        | inl known ↦ inl (ground (arith, known, h.found, h.since))
        | inr strange ↦ inr (ground (arith, strange, h.found, h.since))
      ]

service_revokes :
    (id : Text) (now : Instant) (reason : PyValue) (s : DeviceStore)
    → (revoke_device id now reason s).0 ≡ ok revoked
    → (why : Text) × IsRevoked id now why (revoke_device id now reason s).1
unfolding revoke_device ◌>>=◌
service_revokes id now reason s h = elim (Result-cases (require_text reason 120)) [
  | inl (why, e) ↦ (why, rw e (revoke_device-IsRevoked id now why s (revoked_answer _ (rw e at h))))
  | inr (c, e) ↦ cc (rw e at h)
]

-- Once `revoke_device` has answered that it revoked a device, no token that names the device verifies
-- again: whatever transactions run in between and whenever it is tried, `verify_token` answers that
-- the token is not valid, or raises when the row names an algorithm that it does not know; and it
-- changes nothing.
pub revoked_forever :
    (d : Digests) (decoy : Decoy) (id secret : Text) (now later : Instant) (reason token : PyValue)
    (s : DeviceStore) (calls : List StoreCall)
    → (revoke_device id now reason s).0 ≡ ok revoked
    → split_token token ≡ some (id, secret)
    → let t = run_calls calls (revoke_device id now reason s).1 in
      (verify_token d decoy later token t ≡ (ok refused_token, t))
      ⊎ (verify_token d decoy later token t ≡ (raised schema_unsupported, t))
unfolding verify_token
revoked_forever d decoy id secret now later reason token s calls done parts =
    let (why, h) = service_revokes id now reason s done in
    rw parts (
      verify_parts-refuses d decoy later (run_calls calls (revoke_device id now reason s).1) id
        secret why now (run-IsRevoked id now why calls (revoke_device id now reason s).1 h))

-- A device that holds a secret verifies with the token of that secret, both parts of it being of
-- token characters, through all transactions that do not revoke the device.
pub valid_until_revoked :
    (d : Digests) (decoy : Decoy) (id secret : Text) (later : Instant) (s : DeviceStore)
    (calls : List StoreCall)
    → IsTokenPart id
    → IsTokenPart secret
    → All (IsNotRevocation id) calls
    → HasSecret d id secret s
    → (verify_token d decoy later (text (format_token id secret)) (run_calls calls s)).0
      ≡ ok (record { device_id = some id; reason = none })
unfolding verify_token
valid_until_revoked d decoy id secret later s calls pi ps keep (salt, h) =
    rw (split-format id secret pi ps) (
      ap (λ r. r.0)
        (verify_parts-accepts d decoy later (run_calls calls s) id secret
          (salt, run-IsPaired id salt (d.hmac_sha256 salt secret) token_algorithm calls s keep h)))
