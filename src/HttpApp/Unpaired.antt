-- ===== src/HttpApp/Unpaired.antt =====
-- http_app.py with the device service behind its gate: the requests that pair no device.
use us_stock_helper.Prelude.{
  Text, text_eq, ◌≡◌, refl, ap, ◌∙◌, Bool-cases, Bool, true, false, not, ◌&&◌, ◌||◌, codes, Option,
  none, some, List, [], ◌∷◌, map, All, inl, inr, update_where,
}
use us_stock_helper.DeviceAuth.Action.{◌>>=◌}
use us_stock_helper.DeviceAuth.Store.Rows.{Instant, DeviceStore, DeviceEntry, DeviceSecretRow}
use us_stock_helper.DeviceAuth.Store.Codes.{is_none, has_device_id}
use us_stock_helper.DeviceAuth.Store.Devices.{touch_device, device_secret}
use us_stock_helper.DeviceAuth.Credentials.Codes.{text}
use us_stock_helper.DeviceAuth.Credentials.Tokens.{split_token}
use us_stock_helper.DeviceAuth.Credentials.Digests.{Digests, token_hash}
use us_stock_helper.DeviceAuth.Service.Tokens.{Result-cases}
use us_stock_helper.DeviceAuth.Service.Device.{
  Decoy, verify_token, verify_parts, answer_token, salt_of, expected_of, algorithm_of,
}
use us_stock_helper.DeviceGate.{refusal, bearer_token}
use us_stock_helper.HttpApp.Config.{allows_client}
use us_stock_helper.HttpApp.Responses.{pairing_path}
use us_stock_helper.HttpApp.Surface.{
  HttpRequest, pairing_body, redeem_body, pair_device, read_path, admit_client, admit,
}
use us_stock_helper.HttpApp.Paired.{Deployment, Exchange, gate_of, dispatch, dispatch_all}

-- A device but for when it was seen last.
abbrev pub unseen : DeviceEntry → DeviceEntry
unseen r = record r { last_seen_at = none }

-- The same codes, attempts and devices; only when a device was seen last may differ.
pub record KeepsPairings (s t : DeviceStore) : Type 0 where
  pub codes_kept : t.pairing_codes ≡ s.pairing_codes
  pub attempts_kept : t.pairing_attempts ≡ s.pairing_attempts
  pub next_id_kept : t.next_attempt_id ≡ s.next_attempt_id
  pub devices_kept : map unseen t.devices ≡ map unseen s.devices

refl-KeepsPairings : (s : DeviceStore) → KeepsPairings s s
refl-KeepsPairings s = record {
  codes_kept = refl;
  attempts_kept = refl;
  next_id_kept = refl;
  devices_kept = refl;
}

trans-KeepsPairings :
    (s t u : DeviceStore) → KeepsPairings s t → KeepsPairings t u → KeepsPairings s u
trans-KeepsPairings s t u h k = record {
  codes_kept = k.codes_kept ∙ h.codes_kept;
  attempts_kept = k.attempts_kept ∙ h.attempts_kept;
  next_id_kept = k.next_id_kept ∙ h.next_id_kept;
  devices_kept = k.devices_kept ∙ h.devices_kept;
}

touched_unseen :
    (id : Text) (now : Instant) (rows : List DeviceEntry)
    → map unseen (update_where (has_device_id id) (λ r. record r { last_seen_at = some now }) rows)
      ≡ map unseen rows
touched_unseen id now [] = refl
touched_unseen id now (r ∷ rows) = elim (Bool-cases (has_device_id id r)) [
  | inl named ↦ rw named (ap (λ l. unseen r ∷ l) (touched_unseen id now rows))
  | inr other ↦ rw other (ap (λ l. unseen r ∷ l) (touched_unseen id now rows))
]

touch_device-KeepsPairings :
    (id : Text) (now : Instant) (s : DeviceStore) → KeepsPairings s (touch_device id now s)
unfolding touch_device
touch_device-KeepsPairings id now s = record {
  codes_kept = refl;
  attempts_kept = refl;
  next_id_kept = refl;
  devices_kept = touched_unseen id now s.devices;
}

answer_token-KeepsPairings :
    (id : Text) (now : Instant) (found : Option DeviceSecretRow) (recognized : Bool)
    (s : DeviceStore)
    → KeepsPairings s (answer_token id now found recognized s).1
unfolding answer_token ◌>>=◌
answer_token-KeepsPairings id now none recognized s = refl-KeepsPairings s
answer_token-KeepsPairings id now (some found) recognized s =
    elim (Bool-cases (not recognized || not (is_none found.revoked_at))) [
      | inl refused ↦ rw refused (refl-KeepsPairings s)
      | inr there ↦ rw there (touch_device-KeepsPairings id now s)
    ]

verify_parts-KeepsPairings :
    (d : Digests) (decoy : Decoy) (now : Instant) (parts : Option (Text × Text)) (s : DeviceStore)
    → KeepsPairings s (verify_parts d decoy now parts s).1
unfolding verify_parts ◌>>=◌
verify_parts-KeepsPairings d decoy now none s = refl-KeepsPairings s
verify_parts-KeepsPairings d decoy now (some (id, secret)) s =
    let found = device_secret id s in
    elim (Result-cases (token_hash d (salt_of decoy found) secret (algorithm_of found))) [
      | inl (digest, e) ↦
          rw e
            (answer_token-KeepsPairings id now found (text_eq digest (expected_of decoy found)) s)
      | inr (error, e) ↦ rw e (refl-KeepsPairings s)
    ]

abbrev pub is_there : Option Text → Bool
is_there none = false
is_there (some t) = true

abbrev pub is_allowed : Option Bool → Bool
is_allowed none = false
is_allowed (some allowed) = allowed

-- A POST to the pairing path, with a body that may be read.
abbrev pub is_claim : HttpRequest → Bool
is_claim q =
    text_eq q.path pairing_path
    && (text_eq q.method (codes "POST") && is_there (pairing_body q.content_length q.sent))

module _ {J W : Type 0} where
  -- A claim of a client that the allowlist lets in.
  abbrev pub pairs : Deployment J W → Exchange → Bool
  pairs d x = is_allowed (allows_client d.ip d.config x.request.client_ip) && is_claim x.request

  read_path-KeepsPairings :
      (d : Deployment J W) (x : Exchange) (s : DeviceStore) (w : W)
      → KeepsPairings s (read_path (some (gate_of d x)) d.service x.as_of x.request s w).1
  unfolding read_path refusal verify_token
  read_path-KeepsPairings d x s w =
      verify_parts-KeepsPairings d.digests d.decoy x.now
        (split_token (text (bearer_token x.request.authorization))) s

  redeem_body-KeepsPairings :
      (d : Deployment J W) (x : Exchange) (client : Text) (body : Option Text) (s : DeviceStore)
      → is_there body ≡ false
      → KeepsPairings s (redeem_body {J = J} (gate_of d x) client body s).1
  unfolding redeem_body
  redeem_body-KeepsPairings d x client none s h = refl-KeepsPairings s
  redeem_body-KeepsPairings d x client (some body) s h = cc

  pair_device-KeepsPairings :
      (d : Deployment J W) (x : Exchange) (s : DeviceStore)
      → (text_eq x.request.method (codes "POST")
          && is_there (pairing_body x.request.content_length x.request.sent))
        ≡ false
      → KeepsPairings s
          (pair_device {J = J} d.ip d.config.trust_proxy (some (gate_of d x)) x.request s).1
  unfolding pair_device
  pair_device-KeepsPairings d x s h = elim (Bool-cases (text_eq x.request.method (codes "POST"))) [
    | inr other ↦ rw other (refl-KeepsPairings s)
    | inl post ↦ rw post (redeem_body-KeepsPairings d x _ _ s (rw post at h))
  ]

  admit_client-KeepsPairings :
      (d : Deployment J W) (x : Exchange) (allowed : Option Bool) (s : DeviceStore) (w : W)
      → (is_allowed allowed && is_claim x.request) ≡ false
      → KeepsPairings s
          (admit_client d.ip allowed d.config.trust_proxy
            (some (gate_of d x))
            d.service
            x.as_of
            x.request
            s
            w).1
  unfolding admit_client
  admit_client-KeepsPairings d x none s w h = refl-KeepsPairings s
  admit_client-KeepsPairings d x (some false) s w h = refl-KeepsPairings s
  admit_client-KeepsPairings d x (some true) s w h =
      elim (Bool-cases (text_eq x.request.path pairing_path)) [
        | inl pairing ↦ rw pairing (pair_device-KeepsPairings d x s (rw pairing at h))
        | inr other ↦ rw other (read_path-KeepsPairings d x s w)
      ]

  -- Requests of which none is a POST to the pairing path, by a client that the allowlist lets in and
  -- with a body that may be read, leave every pairing code, every attempt and every device as it is,
  -- revoked or not, but for when a device was seen last: they pair nothing, revoke nothing and use up
  -- no attempt.
  pub dispatch_all-KeepsPairings :
      (d : Deployment J W) (xs : List Exchange) (s : DeviceStore) (w : W)
      → All (λ x. pairs d x ≡ false) xs
      → KeepsPairings s (dispatch_all d xs s w).0
  unfolding dispatch_all dispatch admit
  dispatch_all-KeepsPairings d [] s w h = refl-KeepsPairings s
  dispatch_all-KeepsPairings d (x ∷ xs) s w (one, rest) =
      trans-KeepsPairings s (dispatch d x s w).1 (dispatch_all d (x ∷ xs) s w).0
        (admit_client-KeepsPairings d x (allows_client d.ip d.config x.request.client_ip) s w one)
        (dispatch_all-KeepsPairings d xs (dispatch d x s w).1 (dispatch d x s w).2 rest)
