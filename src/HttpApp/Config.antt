-- ===== src/HttpApp/Config.antt =====
-- http_app.py, `AnalysisServerConfig`: what the environment may ask for.
use us_stock_helper.Prelude.{
  ℕ, Text, codes, strip, split_on, Bool, true, false, not, ◌&&◌, ◌||◌, Option, none, some, List, [],
  ◌∷◌, map, select, leb, ◌==◌, text_eq, if◌then◌else◌, Dict, get_key, ◌≡◌, ℤ, pos, negsuc, read_int,
}
use us_stock_helper.Prelude.Checked.{Checked, accepted, rejected, require, ◌>>=◌, ◌>>◌}
use us_stock_helper.DeviceAuth.Store.Codes.{is_none}
use us_stock_helper.DeviceAuth.Credentials.Tokens.{is_empty}
use us_stock_helper.HttpApp.Query.{lower, is_one_of, true_words}

-- The module `ipaddress`, on texts; none is its `ValueError`.
pub record IpAddresses : Type 0 where
  pub ip_address : Text → Option Text
  pub is_loopback : Text → Option Bool
  pub prefix_length : Text → Option ℕ
  pub is_in_network : Text → Text → Option Bool

-- `ip_network` takes a text or does not, whatever is asked of the network then.
abbrev pub IsConsistent : IpAddresses → Type 0
IsConsistent ip =
    (network address : Text) (n : ℕ)
    → ip.prefix_length network ≡ some n
    → (b : Bool) × (ip.is_in_network network address ≡ some b)

pub record AnalysisServerConfig : Type 0 where
  pub host : Text
  pub port : ℕ
  pub allow_lan : Bool
  pub trust_proxy : Bool
  pub device_database : Option Text
  pub allowed_client_networks : List Text

-- The `ValueError` that stops the start.
pub data ConfigError : Type 0 where
  port_not_numeric port_out_of_range token_retired lan_without_clients : ConfigError
  database_missing : Text → ConfigError
  not_a_network network_too_broad not_loopback : ConfigError

-- `env.get(key, default)`
abbrev pub or_default : Text → Option Text → Text
or_default default none = default
or_default default (some t) = t

abbrev pub env_text : Text → Text → Dict Text → Text
env_text key default env = or_default default (get_key key env)

abbrev pub is_on : Text → Dict Text → Bool
is_on key env = is_one_of true_words (lower (env_text key [] env))

unfoldable pub check_port : Option ℤ → Checked ConfigError ℕ
check_port none = rejected port_not_numeric
check_port (some (negsuc n)) = rejected port_out_of_range
check_port (some (pos n)) =
    if leb 1 n && leb n 65535 then accepted n else rejected port_out_of_range

-- `(… or "").strip() or None`
unfoldable pub filled : Text → Option Text
filled [] = none
filled (c ∷ cs) = some (c ∷ cs)

unfoldable pub clients_of : Text → List Text
clients_of t = map strip (select (λ part. not (is_empty (strip part))) (split_on b',' t))

abbrev pub check_prefix : Option ℕ → Checked ConfigError (Unit {0})
check_prefix none = rejected not_a_network
check_prefix (some n) = require (not (n == 0)) network_too_broad

-- The loop over the networks in LAN mode.
unfoldable pub check_networks : IpAddresses → List Text → Checked ConfigError (Unit {0})
check_networks ip [] = accepted tt
check_networks ip (network ∷ networks) = do
  check_prefix (ip.prefix_length network)
  check_networks ip networks

abbrev is_true : Option Bool → Bool
is_true none = false
is_true (some b) = b

-- `_is_loopback_host`
unfoldable pub is_loopback_host : IpAddresses → Text → Bool
is_loopback_host ip host = text_eq (lower host) (codes "localhost") || is_true (ip.is_loopback host)

-- `_require_database`
unfoldable pub require_database : Option Text → Text → Checked ConfigError (Unit {0})
require_database database subject = require (not (is_none database)) (database_missing subject)

abbrev pub loopback_networks : List Text
loopback_networks = codes "127.0.0.0/8" ∷ codes "::1/128" ∷ []

unfoldable pub lan_clients : IpAddresses → Option Text → List Text → Checked ConfigError (List Text)
lan_clients ip database [] = rejected lan_without_clients
lan_clients ip database (c ∷ cs) = do
  require_database database (codes "LAN mode")
  check_networks ip (c ∷ cs)
  accepted (c ∷ cs)

unfoldable pub local_clients :
    IpAddresses → Text → Bool → Option Text → Checked ConfigError (List Text)
local_clients ip host trust_proxy database = do
  require (is_loopback_host ip host) not_loopback
  (if trust_proxy
      then require_database database (codes "ANALYSIS_API_TRUST_PROXY=1")
      else accepted tt)
  accepted loopback_networks

-- The checks that depend on the mode, and the networks that they let in.
unfoldable pub client_networks :
    IpAddresses → Bool → Text → Bool → Option Text → List Text → Checked ConfigError (List Text)
client_networks ip true host trust_proxy database clients = lan_clients ip database clients
client_networks ip false host trust_proxy database clients =
    local_clients ip host trust_proxy database

unfoldable pub from_environment : IpAddresses → Dict Text → Checked ConfigError AnalysisServerConfig
from_environment ip env = do
  let allow_lan = is_on (codes "ANALYSIS_API_ALLOW_LAN") env
  let trust_proxy = is_on (codes "ANALYSIS_API_TRUST_PROXY") env
  let host = env_text (codes "ANALYSIS_API_HOST") (codes "127.0.0.1") env
  port ← check_port (read_int (env_text (codes "ANALYSIS_API_PORT") (codes "8770") env))
  require (is_none (get_key (codes "ANALYSIS_API_TOKEN") env)) token_retired
  let database = filled (strip (env_text (codes "DEVICE_AUTH_DATABASE") [] env))
  networks ←
      client_networks ip allow_lan host trust_proxy database
        (clients_of (env_text (codes "ANALYSIS_API_ALLOWED_CLIENTS") [] env))
  accepted (record {
    host = host;
    port = port;
    allow_lan = allow_lan;
    trust_proxy = trust_proxy;
    device_database = database;
    allowed_client_networks = networks;
  })

-- One step of `any(…)`: the rest is looked at only after a network without the address.
abbrev pub or_rest : Option Bool → Option Bool → Option Bool
or_rest none rest = none
or_rest (some true) rest = some true
or_rest (some false) rest = rest

-- `any(address in ip_network(network) …)`
unfoldable pub is_in_any : IpAddresses → Text → List Text → Option Bool
is_in_any ip address [] = some false
is_in_any ip address (network ∷ networks) =
    or_rest (ip.is_in_network network address) (is_in_any ip address networks)

unfoldable pub allows_address : IpAddresses → List Text → Option Text → Option Bool
allows_address ip networks none = some false
allows_address ip networks (some address) = is_in_any ip address networks

-- Whether the caller may speak to the socket; none is the `ValueError` of a network.
unfoldable pub allows_client : IpAddresses → AnalysisServerConfig → Text → Option Bool
allows_client ip config client_ip =
    allows_address ip config.allowed_client_networks (ip.ip_address client_ip)
