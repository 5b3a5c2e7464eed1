-- ===== src/DeviceAuth/Examples/Service.antt =====
-- service.py: tests, and the theorems at concrete inputs.
use us_stock_helper.Prelude.{
  ◌*◌, codes, text_eq, strip, partition, decimal, digits, split_on, value, is_numeral, ◌≡◌, refl,
  true, none, some, [], ◌∷◌, ◌++◌, ◌⊎◌,
}
use us_stock_helper.DeviceAuth.Errors.{ok, raised, schema_unsupported}
use us_stock_helper.DeviceAuth.Store.Rows.{DeviceStore, empty_store}
use us_stock_helper.DeviceAuth.Store.Codes.{
  insert_pairing_code, consume_code_and_register_device, candidate_pairing_codes, order_codes,
  insert_sorted,
}
use us_stock_helper.DeviceAuth.Store.Attempts.{reserve_pairing_attempt, record_attempt_outcome}
use us_stock_helper.DeviceAuth.Store.Devices as Table
use us_stock_helper.DeviceAuth.Store.Calls.{touch, revoke, run_calls}
use us_stock_helper.DeviceAuth.Store.Paired.{claim-IsPaired}
use us_stock_helper.DeviceAuth.Store.Codes.{Claim}
use us_stock_helper.DeviceAuth.Credentials.Codes.{
  PyValue, text, normalize_code, check_code, condense, generate_code, draw_code,
}
use us_stock_helper.DeviceAuth.Credentials.Scrypt.{
  serialize, parse, parse_parts, parse_part, of_fields, is_complete, get, put,
}
use us_stock_helper.DeviceAuth.Credentials.Tokens.{format_token, split_token}
use us_stock_helper.DeviceAuth.Credentials.Digests.{Digests, code_hash, token_hash, token_algorithm}
use us_stock_helper.DeviceAuth.Action.{◌>>=◌}
use us_stock_helper.DeviceAuth.Service.Types.{
  default_service, one_minute, revoked, require_text, check_text,
}
use us_stock_helper.DeviceAuth.Service.Operator.{CodeDraws, issue_pairing_code, revoke_device}
use us_stock_helper.DeviceAuth.Service.Device.{
  DeviceDraws, Decoy, refused_token, paired_outcome, refuse, match_rows, match_code, answer_claim,
  claim_code, decide_match, try_code, use_slot, redeem_pairing_code, verify_token,
}
use us_stock_helper.DeviceAuth.Service.Tokens.{HasSecret, revoked_forever, valid_until_revoked}
use us_stock_helper.DeviceAuth.Service.Redeem.{Answers, redeem-Answers}

-- Digests that run: not secret, but each made of all that it is given.
abbrev toy : Digests
toy = record {
  scrypt = λ code salt p. some (code ++ salt);
  hmac_sha256 = λ salt secret. salt ++ secret;
}

abbrev decoy : Decoy
decoy = record { salt = codes "none"; digest = codes "nothing" }

abbrev code_draws : CodeDraws
code_draws = record { choices = λ n. n; salt = codes "cs"; code_id = codes "c1" }

abbrev device_draws : DeviceDraws
device_draws = record { device_id = codes "d1"; secret = codes "xyz"; salt = codes "ds" }

abbrev client : PyValue
client = text (codes "10.0.0.1")

abbrev issued : DeviceStore
issued =
    (issue_pairing_code default_service toy code_draws one_minute (text (codes " phone "))
      empty_store).1

-- The code that was issued, typed with its dash, pairs the phone.
pairs_once :
    (redeem_pairing_code default_service toy device_draws
      (2 * one_minute)
      (text (codes "9876-5432"))
      client
      issued).0
    ≡ ok (paired_outcome device_draws)
unfolding issue_pairing_code redeem_pairing_code use_slot try_code match_code match_rows
    decide_match claim_code answer_claim refuse ◌>>=◌ require_text check_text strip generate_code
    draw_code code_hash token_hash insert_pairing_code reserve_pairing_attempt normalize_code
    check_code condense candidate_pairing_codes order_codes insert_sorted
    consume_code_and_register_device record_attempt_outcome serialize parse parse_parts parse_part
    of_fields is_complete get put decimal digits split_on partition value is_numeral text_eq
    format_token
pairs_once = refl

abbrev claim : Claim
claim = record {
  code_id = codes "c1";
  now = 5 * one_minute;
  device_id = codes "d1";
  name = codes "phone";
  salt = codes "ds";
  digest = codes "dsxyz";
  algorithm = token_algorithm;
}

abbrev paired : DeviceStore
paired = (consume_code_and_register_device claim issued).1

claim_wins : (consume_code_and_register_device claim issued).0 ≡ ok true
unfolding issue_pairing_code ◌>>=◌ require_text check_text strip generate_code draw_code code_hash
    insert_pairing_code consume_code_and_register_device text_eq
claim_wins = refl

paired-HasSecret : HasSecret toy (codes "d1") (codes "xyz") paired
paired-HasSecret = (codes "ds", claim-IsPaired claim issued claim_wins)

valid_until_revoked_example :
    (verify_token toy decoy
      (9 * one_minute)
      (text (format_token (codes "d1") (codes "xyz")))
      (run_calls (revoke (codes "d2") 4 (codes "lost") ∷ touch (codes "d1") 5 ∷ []) paired)).0
    ≡ ok (record { device_id = some (codes "d1"); reason = none })
unfolding text_eq
valid_until_revoked_example =
    valid_until_revoked toy decoy (codes "d1") (codes "xyz") (9 * one_minute) paired
      (revoke (codes "d2") 4 (codes "lost") ∷ touch (codes "d1") 5 ∷ [])
      (record { some_character = refl; characters = refl })
      (record { some_character = refl; characters = refl }) (refl, (tt, tt)) paired-HasSecret

revokes : (revoke_device (codes "d1") (6 * one_minute) (text (codes "lost")) paired).0 ≡ ok revoked
unfolding issue_pairing_code ◌>>=◌ require_text check_text strip generate_code draw_code code_hash
    insert_pairing_code consume_code_and_register_device text_eq revoke_device Table.revoke_device
revokes = refl

names_device : split_token (text (codes "d1.xyz")) ≡ some (codes "d1", codes "xyz")
unfolding split_token strip partition
names_device = refl

revoked_forever_example :
    let t =
      run_calls
        (touch (codes "d1") 5 ∷ [])
        (revoke_device (codes "d1") (6 * one_minute) (text (codes "lost")) paired).1 in
    (verify_token toy decoy (9 * one_minute) (text (codes "d1.xyz")) t ≡ (ok refused_token, t))
    ⊎ (verify_token toy decoy (9 * one_minute) (text (codes "d1.xyz")) t
        ≡ (raised schema_unsupported, t))
revoked_forever_example =
    revoked_forever toy decoy (codes "d1") (codes "xyz") (6 * one_minute) (9 * one_minute)
      (text (codes "lost")) (text (codes "d1.xyz")) paired (touch (codes "d1") 5 ∷ []) revokes
      names_device

redeem-Answers_example : Answers toy device_draws issued (
    redeem_pairing_code default_service toy device_draws
      (2 * one_minute)
      (text (codes "9876-5432"))
      client
      issued)
redeem-Answers_example =
    redeem-Answers default_service toy device_draws (2 * one_minute) (text (codes "9876-5432"))
      client issued
