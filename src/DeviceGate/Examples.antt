-- ===== src/DeviceGate/Examples.antt =====
-- device_gate.py: tests, and the theorems at concrete inputs.
use us_stock_helper.Prelude.{
  Text, codes, strip, starts_with, ◌≡◌, refl, true, Option, none, some, [], ◌∷◌, ◌++◌,
}
use us_stock_helper.DeviceAuth.Store.Rows.{empty_store}
use us_stock_helper.DeviceAuth.Credentials.Codes.{text}
use us_stock_helper.DeviceAuth.Credentials.Digests.{Digests}
use us_stock_helper.DeviceAuth.Service.Types.{default_service, one_minute}
use us_stock_helper.DeviceAuth.Service.Device.{DeviceDraws}
use us_stock_helper.DeviceGate.{
  DeviceAuthority, Payload, object, attempt, bearer_token, redeem_attempt,
}
use us_stock_helper.DeviceGate.Answers.{service_authority, Told, redeem_tells}
use us_stock_helper.DeviceGate.Identity.{rate_limit_identity, identity_is_observed}

abbrev toy : Digests
toy = record {
  scrypt = λ code salt p. some (code ++ salt);
  hmac_sha256 = λ salt secret. salt ++ secret;
}

abbrev draws : DeviceDraws
draws = record { device_id = codes "d1"; secret = codes "xyz"; salt = codes "ds" }

abbrev gate_authority : DeviceAuthority
gate_authority =
    service_authority default_service toy (record { salt = codes "none"; digest = codes "nothing" })
      draws one_minute

redeem_tells_example : Told toy draws empty_store (
    redeem_attempt gate_authority
      (attempt (text (codes "9876-5432")))
      (codes "10.0.0.1")
      empty_store)
redeem_tells_example =
    redeem_tells default_service toy (record { salt = codes "none"; digest = codes "nothing" })
      draws one_minute (text (codes "9876-5432")) (codes "10.0.0.1") empty_store

-- A decoder that knows one body.
abbrev loads : Text → Option Payload
loads [] = none
loads (c ∷ cs) = some (object ((codes "pairingCode", text cs) ∷ []))

-- A parser that takes every text for an address.
abbrev any_address : Text → Option Text
any_address t = some t

observed_text : strip (codes " 10.0.0.9") ≡ codes "10.0.0.9"
unfolding strip
observed_text = refl

identity_is_observed_example :
    rate_limit_identity any_address
      (some (codes "1.1.1.1, 2.2.2.2" ++ b',' ∷ codes " 10.0.0.9"))
      (codes "127.0.0.1")
      true
    ≡ codes "10.0.0.9"
unfolding strip
identity_is_observed_example =
    identity_is_observed any_address (codes "1.1.1.1, 2.2.2.2") (codes " 10.0.0.9")
      (codes "10.0.0.9") (codes "127.0.0.1") refl refl refl

bearer_texts :
    (bearer_token (some (codes "Bearer abc")) ≡ codes "abc")
    × (bearer_token (some (codes "Basic abc")) ≡ [])
unfolding bearer_token starts_with
bearer_texts = (refl, refl)
