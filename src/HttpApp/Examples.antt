-- ===== src/HttpApp/Examples.antt =====
-- http_app.py: tests, and the theorems at concrete inputs.
use us_stock_helper.Prelude.{
  partition, digits_of, get_key, read_int, signed_of, split_on, value, ℕ, ◌+◌, ◌*◌, Text, codes,
  text_eq, strip, starts_with, ◌≡◌, refl, true, false, none, some, [], ◌∷◌, ◌++◌, ◌⊎◌, All, Dict,
  arith,
}
use us_stock_helper.Prelude.Checked.{accepted, rejected}
use us_stock_helper.DeviceAuth.Errors.{ok}
use us_stock_helper.DeviceAuth.Store.Rows.{DeviceStore}
use us_stock_helper.DeviceAuth.Credentials.Codes.{text}
use us_stock_helper.DeviceAuth.Credentials.Digests.{Digests, token_algorithm}
use us_stock_helper.DeviceAuth.Credentials.Tokens.{split_token}
use us_stock_helper.DeviceAuth.Service.Types.{
  check_text, require_text, default_service, one_minute, revoked,
}
use us_stock_helper.DeviceAuth.Service.Operator.{revoke_device}
use us_stock_helper.DeviceGate.{bearer_token}
use us_stock_helper.DeviceGate.Answers.{service_authority}
use us_stock_helper.HttpApp.Query.{flag_value, flag_word, only_value, values_of, news, one, flag}
use us_stock_helper.HttpApp.Config.{
  check_networks, check_port, client_networks, clients_of, filled, is_loopback_host, lan_clients,
  local_clients, require_database, IpAddresses, IsConsistent, AnalysisServerConfig,
  loopback_networks, from_environment, allows_client, not_loopback,
}
use us_stock_helper.HttpApp.Configured.{IsNarrow, IsSafeConfig, from_environment-IsSafeConfig}
use us_stock_helper.HttpApp.Responses.{decided}
use us_stock_helper.HttpApp.Surface.{
  read_length, AnalysisService, Gate, HttpRequest, admit, pairing_body,
}
use us_stock_helper.HttpApp.Permitted.{
  HasNoReading, IsPermitted, IsAuthorized, admit_needs_permission,
}
use us_stock_helper.HttpApp.Unpaired.{KeepsPairings, dispatch_all-KeepsPairings}
use us_stock_helper.HttpApp.Paired.{
  Deployment, Exchange, dispatch, dispatch_all, revoked_reads_nothing,
}
use us_stock_helper.DeviceAuth.Store.Devices as Table
use us_stock_helper.HttpApp.Surface.{admit_client, read_path, handle_unless, handle, read_from}
use us_stock_helper.HttpApp.Config.{allows_address, is_in_any}
use us_stock_helper.DeviceGate.{refusal, refusal_of}
use us_stock_helper.DeviceAuth.Service.Device.{verify_token, verify_parts, answer_token}
use us_stock_helper.DeviceAuth.Store.Devices.{device_secret}
use us_stock_helper.DeviceAuth.Service.Types.{authorized}
use us_stock_helper.Prelude.{partition}
use us_stock_helper.DeviceAuth.Credentials.Digests.{token_hash}
use us_stock_helper.HttpApp.Responses.{brief_response}
use us_stock_helper.DeviceAuth.Action.{◌>>=◌}
use us_stock_helper.HttpApp.Exposed.{gate_for, exposed_needs_token}

-- Addresses whose networks are prefixes of their text: an address lies in `a/…` when it starts with `a`.
abbrev toy_addresses : IpAddresses
toy_addresses = record {
  ip_address = λ t. some t;
  is_loopback = λ t. some (starts_with t (codes "127."));
  prefix_length = λ t. some 8;
  is_in_network = λ network address. some (text_eq network address);
}

toy_addresses-IsConsistent : IsConsistent toy_addresses
toy_addresses-IsConsistent network address n h = (_, refl)

loopback-IsNarrow : All (IsNarrow toy_addresses) loopback_networks
loopback-IsNarrow = ((8, refl, omega arith), ((8, refl, omega arith), tt))

abbrev lan_environment : Dict Text
lan_environment =
    (codes "ANALYSIS_API_ALLOW_LAN", codes "Yes")
    ∷ (codes "ANALYSIS_API_PORT", codes " 8_771")
    ∷ (codes "DEVICE_AUTH_DATABASE", codes "devices.db")
    ∷ (codes "ANALYSIS_API_ALLOWED_CLIENTS", codes "10.0.0.7, ,10.0.0.8 ")
    ∷ []

abbrev lan_config : AnalysisServerConfig
lan_config = record {
  host = codes "127.0.0.1";
  port = 8771;
  allow_lan = true;
  trust_proxy = false;
  device_database = some (codes "devices.db");
  allowed_client_networks = codes "10.0.0.7" ∷ codes "10.0.0.8" ∷ [];
}

lan_starts : from_environment toy_addresses lan_environment ≡ accepted lan_config
unfolding from_environment strip check_port read_int signed_of get_key text_eq digits_of value
    client_networks lan_clients clients_of split_on require_database filled check_networks
lan_starts = refl

open_host :
    from_environment toy_addresses ((codes "ANALYSIS_API_HOST", codes "0.0.0.0") ∷ [])
    ≡ rejected not_loopback
unfolding from_environment strip check_port read_int signed_of get_key text_eq digits_of value
    client_networks local_clients is_loopback_host starts_with
open_host = refl

one_value :
    one ((codes "symbol", codes " AAPL " ∷ []) ∷ []) (codes "symbol") ≡ accepted (codes "AAPL")
unfolding one strip only_value values_of get_key text_eq
one_value = refl

news_flag : flag ((codes "adviser", codes "News" ∷ []) ∷ []) (codes "adviser") ≡ accepted news
unfolding flag strip flag_value values_of get_key text_eq flag_word
news_flag = refl

long_body : pairing_body (some (codes "1025")) (codes "x") ≡ none
unfolding pairing_body strip read_length read_int signed_of digits_of value
long_body = refl

from_environment-IsSafeConfig_example : IsSafeConfig toy_addresses lan_config
from_environment-IsSafeConfig_example =
    from_environment-IsSafeConfig toy_addresses lan_environment lan_config lan_starts

abbrev toy : Digests
toy = record {
  scrypt = λ code salt p. some (code ++ salt);
  hmac_sha256 = λ salt secret. salt ++ secret;
}

-- A service that counts what it is asked.
abbrev counting_service : AnalysisService Text ℕ
counting_service = record {
  decision = λ symbol horizon adviser n. (decided symbol, n + 1);
  market_brief = λ n. (some (codes "calm"), n + 1);
}

abbrev deployment : Deployment Text ℕ
deployment = record {
  ip = toy_addresses;
  config = lan_config;
  devices = default_service;
  digests = toy;
  decoy = record { salt = codes "none"; digest = codes "nothing" };
  loads = λ body. none;
  service = counting_service;
}

abbrev phone_request : HttpRequest
phone_request = record {
  method = codes "GET";
  path = codes "/market-brief";
  query = [];
  authorization = some (codes "Bearer d1.xyz");
  client_ip = codes "10.0.0.7";
  forwarded_for = [];
  content_length = none;
  sent = [];
}

abbrev phone_asks : Exchange
phone_asks = record {
  request = phone_request;
  now = 9 * one_minute;
  as_of = codes "2026-01-01T00:00:00Z";
  draws = record { device_id = codes "d2"; secret = codes "uvw"; salt = codes "ds" };
}

abbrev paired_store : DeviceStore
paired_store = record {
  pairing_codes = [];
  devices =
      record {
        device_id = codes "d1";
        name = codes "phone";
        salt = codes "ds";
        token_hash = codes "dsxyz";
        algorithm = token_algorithm;
        paired_from_code = codes "c1";
        created_at = 5;
        last_seen_at = none;
        revoked_at = none;
        revoked_reason = none;
      }
      ∷ [];
  pairing_attempts = [];
  next_attempt_id = 1;
}

-- The paired phone is answered, and the service is asked.
phone_is_answered : (dispatch deployment phone_asks paired_store 0).2 ≡ 1
unfolding dispatch admit admit_client allows_client allows_address is_in_any text_eq read_path
    handle_unless refusal refusal_of verify_token verify_parts split_token bearer_token starts_with
    partition strip ◌>>=◌ token_hash device_secret answer_token authorized handle read_from
    brief_response
phone_is_answered = refl

revokes :
    (revoke_device (codes "d1") (6 * one_minute) (text (codes "lost")) paired_store).0 ≡ ok revoked
unfolding revoke_device Table.revoke_device ◌>>=◌ require_text check_text strip text_eq
revokes = refl

names_device :
    split_token (text (bearer_token (some (codes "Bearer d1.xyz"))))
    ≡ some (codes "d1", codes "xyz")
unfolding split_token bearer_token starts_with partition strip
names_device = refl

admit_needs_permission_example :
    let gate = service_authority default_service toy deployment.decoy phone_asks.draws 5 in
    let g : Gate = record { authority = gate; loads = λ body. none } in
    let r =
      admit toy_addresses lan_config
        (some g)
        counting_service
        (codes "now")
        phone_request
        paired_store
        0 in
    ((r.2 ≡ 0) × HasNoReading r.0)
    ⊎ IsPermitted toy_addresses lan_config (some g) phone_request paired_store
admit_needs_permission_example =
    admit_needs_permission toy_addresses lan_config
      (some (record {
        authority = service_authority default_service toy deployment.decoy phone_asks.draws 5;
        loads = λ body. none;
      }))
      counting_service (codes "now") phone_request paired_store 0

exposed_needs_token_example :
    let gate = service_authority default_service toy deployment.decoy phone_asks.draws 5 in
    let g : Gate = record { authority = gate; loads = λ body. none } in
    let r =
      admit toy_addresses lan_config
        (gate_for none lan_config g)
        counting_service
        (codes "now")
        phone_request
        paired_store
        0 in
    ((r.2 ≡ 0) × HasNoReading r.0) ⊎ IsAuthorized (some g) phone_request paired_store
exposed_needs_token_example =
    exposed_needs_token toy_addresses lan_environment lan_config
      (record {
        authority = service_authority default_service toy deployment.decoy phone_asks.draws 5;
        loads = λ body. none;
      })
      counting_service (codes "now") phone_request paired_store 0 lan_starts refl

abbrev posts_elsewhere : Exchange
posts_elsewhere = record phone_asks { request = record phone_request { method = codes "POST" } }

dispatch_all-KeepsPairings_example :
    KeepsPairings paired_store
      (dispatch_all deployment (phone_asks ∷ posts_elsewhere ∷ []) paired_store 0).0
unfolding allows_client allows_address is_in_any text_eq
dispatch_all-KeepsPairings_example =
    dispatch_all-KeepsPairings deployment (phone_asks ∷ posts_elsewhere ∷ []) paired_store 0
      (refl, (refl, tt))

revoked_reads_nothing_example :
    let t =
      (dispatch_all deployment
        (phone_asks ∷ [])
        (revoke_device (codes "d1") (6 * one_minute) (text (codes "lost")) paired_store).1
        0).0 in
    let r = dispatch deployment phone_asks t 1 in (r.2 ≡ 1) × HasNoReading r.0
revoked_reads_nothing_example =
    revoked_reads_nothing deployment (codes "d1") (codes "xyz") (6 * one_minute)
      (text (codes "lost")) (phone_asks ∷ []) phone_asks paired_store 0 1 revokes names_device
