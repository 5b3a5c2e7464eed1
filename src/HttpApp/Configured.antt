-- ===== src/HttpApp/Configured.antt =====
-- http_app.py: what every configuration that starts guarantees.
use us_stock_helper.Prelude.{
  ℕ, ◌≤◌, ◌<◌, Text, codes, ◌≡◌, ◌≢◌, refl, ap, ◌∙◌, sym, subst, arith, Bool-cases, Bool, true,
  false, not, Option, none, some, List, [], ◌∷◌, All, Dict, get_key, ℤ, pos, negsuc, read_int, inl,
  inr, ◌⊎◌, strip,
}
use us_stock_helper.Prelude.Checked.{
  Checked, accepted, rejected, require, ◌>>=◌, ◌>>◌, accepted_by, required_by, accepted_inj,
}
use us_stock_helper.DeviceAuth.Store.Codes.{is_none}
use us_stock_helper.HttpApp.Config.{
  IpAddresses, IsConsistent, AnalysisServerConfig, ConfigError, token_retired, env_text, is_on,
  check_port, filled, clients_of, check_prefix, check_networks, is_loopback_host, require_database,
  loopback_networks, lan_clients, local_clients, client_networks, from_environment, is_in_any,
  allows_address, allows_client,
}

-- The network is one, and is not the whole address space.
abbrev pub IsNarrow : IpAddresses → Text → Type 0
IsNarrow ip network = (n : ℕ) × (ip.prefix_length network ≡ some n) × (0 < n)

-- What is asked of a configuration in its mode.
abbrev pub IsGuarded : IpAddresses → Bool → Text → Bool → Option Text → List Text → Type 0
IsGuarded ip true host trust_proxy database networks =
    (is_none database ≡ false) × (networks ≢ []) × All (IsNarrow ip) networks
IsGuarded ip false host trust_proxy database networks =
    (is_loopback_host ip host ≡ true)
    × (networks ≡ loopback_networks)
    × ((trust_proxy ≡ false) ⊎ (is_none database ≡ false))

abbrev pub IsSafeConfig : IpAddresses → AnalysisServerConfig → Type 0
IsSafeConfig ip c =
    (1 ≤ c.port)
    × (c.port ≤ 65535)
    × IsGuarded ip c.allow_lan c.host c.trust_proxy c.device_database c.allowed_client_networks

check_port-bounds : (r : Option ℤ) (n : ℕ) → check_port r ≡ accepted n → (1 ≤ n) × (n ≤ 65535)
unfolding check_port
check_port-bounds none n h = cc
check_port-bounds (some (negsuc m)) n h = cc
check_port-bounds (some (pos m)) n h = ground arith

check_prefix-IsNarrow :
    (ip : IpAddresses) (network : Text) (r : Option ℕ) (u : Unit {0})
    → ip.prefix_length network ≡ r
    → check_prefix r ≡ accepted u
    → IsNarrow ip network
check_prefix-IsNarrow ip network none u e h = cc
check_prefix-IsNarrow ip network (some n) u e h = (n, e, ground arith)

check_networks-IsNarrow :
    (ip : IpAddresses) (networks : List Text)
    → check_networks ip networks ≡ accepted tt
    → All (IsNarrow ip) networks
unfolding check_networks
check_networks-IsNarrow ip [] h = tt
check_networks-IsNarrow ip (network ∷ networks) h =
    let (u, first, rest) =
      accepted_by (check_prefix (ip.prefix_length network)) (λ u. check_networks ip networks) tt
        h in
    (
      check_prefix-IsNarrow ip network (ip.prefix_length network) u refl first,
      check_networks-IsNarrow ip networks rest,
    )

not-true : (b : Bool) → not b ≡ true → b ≡ false
not-true b h = ground arith

lan_clients-IsGuarded :
    (ip : IpAddresses) (host : Text) (trust_proxy : Bool) (database : Option Text)
    (clients networks : List Text)
    → lan_clients ip database clients ≡ accepted networks
    → IsGuarded ip true host trust_proxy database networks
unfolding lan_clients require_database
lan_clients-IsGuarded ip host trust_proxy database [] networks h = cc
lan_clients-IsGuarded ip host trust_proxy database (c ∷ cs) networks h =
    let (stored, rest) = required_by (not (is_none database)) _ _ networks h in
    let (u, narrow, same) =
      accepted_by (check_networks ip (c ∷ cs)) (λ u. accepted (c ∷ cs)) networks rest in
    (
      not-true (is_none database) stored,
      cc,
      subst (All (IsNarrow ip)) {x = c ∷ cs} {y = networks} (accepted_inj _ _ same)
          (check_networks-IsNarrow ip (c ∷ cs) narrow),
    )

local_clients-IsGuarded :
    (ip : IpAddresses) (host : Text) (trust_proxy : Bool) (database : Option Text)
    (networks : List Text)
    → local_clients ip host trust_proxy database ≡ accepted networks
    → IsGuarded ip false host trust_proxy database networks
unfolding local_clients require_database
local_clients-IsGuarded ip host false database networks h =
    let (local, rest) = required_by (is_loopback_host ip host) _ _ networks h in
    (local, cc, inl refl)
local_clients-IsGuarded ip host true database networks h =
    let (local, rest) = required_by (is_loopback_host ip host) _ _ networks h in
    let (stored, same) = required_by (not (is_none database)) _ _ networks rest in
    (local, cc, inr (not-true (is_none database) stored))

client_networks-IsGuarded :
    (ip : IpAddresses) (allow_lan : Bool) (host : Text) (trust_proxy : Bool)
    (database : Option Text) (clients networks : List Text)
    → client_networks ip allow_lan host trust_proxy database clients ≡ accepted networks
    → IsGuarded ip allow_lan host trust_proxy database networks
unfolding client_networks
client_networks-IsGuarded ip true host trust_proxy database clients networks h =
    lan_clients-IsGuarded ip host trust_proxy database clients networks h
client_networks-IsGuarded ip false host trust_proxy database clients networks h =
    local_clients-IsGuarded ip host trust_proxy database networks h

-- The chain of checks, whatever each of them answers.
passed_checks :
    (ip : IpAddresses) (host : Text) (allow_lan trust_proxy unset : Bool) (database : Option Text)
    (port : Checked ConfigError ℕ) (networks : Checked ConfigError (List Text))
    (c : AnalysisServerConfig)
    → (do
      p ← port
      require unset token_retired
      n ← networks
      accepted (record {
        host = host;
        port = p;
        allow_lan = allow_lan;
        trust_proxy = trust_proxy;
        device_database = database;
        allowed_client_networks = n;
      }))
      ≡ accepted c
    → (p : ℕ) × (n : List Text) × (port ≡ accepted p)
      × (networks ≡ accepted n)
      × (c ≡ record {
        host = host;
        port = p;
        allow_lan = allow_lan;
        trust_proxy = trust_proxy;
        device_database = database;
        allowed_client_networks = n;
      })
passed_checks ip host al tp true database (accepted p) (accepted n) c h =
    (p, n, refl, refl, sym (accepted_inj _ _ h))
passed_checks ip host al tp true database (accepted p) (rejected e) c h = cc
passed_checks ip host al tp false database (accepted p) networks c h = cc
passed_checks ip host al tp unset database (rejected e) networks c h = cc

-- Every configuration that the environment may ask for has a port in range; in LAN mode it has a
-- credential database and at least one network, none of which is the whole address space; otherwise
-- its host is a loopback address, only loopback networks are let in, and behind a proxy it has a
-- database.
pub from_environment-IsSafeConfig :
    (ip : IpAddresses) (env : Dict Text) (c : AnalysisServerConfig)
    → from_environment ip env ≡ accepted c
    → IsSafeConfig ip c
unfolding from_environment
from_environment-IsSafeConfig ip env c h =
    let allow_lan = is_on (codes "ANALYSIS_API_ALLOW_LAN") env in
    let trust_proxy = is_on (codes "ANALYSIS_API_TRUST_PROXY") env in
    let host = env_text (codes "ANALYSIS_API_HOST") (codes "127.0.0.1") env in
    let database = filled (strip (env_text (codes "DEVICE_AUTH_DATABASE") [] env)) in
    let clients = clients_of (env_text (codes "ANALYSIS_API_ALLOWED_CLIENTS") [] env) in
    let (p, n, is_port, are_networks, same) =
      passed_checks ip host allow_lan trust_proxy
        (is_none (get_key (codes "ANALYSIS_API_TOKEN") env)) database
        (check_port (read_int (env_text (codes "ANALYSIS_API_PORT") (codes "8770") env)))
        (client_networks ip allow_lan host trust_proxy database clients) c h in
    let (low, high) = check_port-bounds _ p is_port in
    subst (IsSafeConfig ip) (sym same) (
      low,
      high,
      client_networks-IsGuarded ip allow_lan host trust_proxy database clients n are_networks,
    )

-- From a list of networks that parse, an address is found or not.
is_in_any_answers :
    (ip : IpAddresses) (address : Text) (networks : List Text)
    → IsConsistent ip
    → All (IsNarrow ip) networks
    → (b : Bool) × (is_in_any ip address networks ≡ some b)
unfolding is_in_any
is_in_any_answers ip address [] law h = (false, refl)
is_in_any_answers ip address (network ∷ networks) law ((n, parses, wide), h) =
    let (b, e) = law network address n parses in
    let (found, rest) = is_in_any_answers ip address networks law h in
    elim (Bool-cases b) [
      | inl hit ↦ (true, rw (e ∙ ap some hit) refl)
      | inr miss ↦ (found, rw (e ∙ ap some miss) rest)
    ]

guarded_networks :
    (ip : IpAddresses) (allow_lan : Bool) (host : Text) (trust_proxy : Bool)
    (database : Option Text) (networks : List Text)
    → All (IsNarrow ip) loopback_networks
    → IsGuarded ip allow_lan host trust_proxy database networks
    → All (IsNarrow ip) networks
guarded_networks ip true host trust_proxy database networks local (_, _, narrow) = narrow
guarded_networks ip false host trust_proxy database networks local (_, same, _) =
    subst (All (IsNarrow ip)) (sym same) local

-- Under a configuration that the environment may ask for, no caller makes the allowlist raise: an
-- address is let in or not, when `ip_network` takes the two loopback networks, and answers about
-- every text that it takes.
pub allows_client_answers :
    (ip : IpAddresses) (env : Dict Text) (c : AnalysisServerConfig) (client_ip : Text)
    → IsConsistent ip
    → All (IsNarrow ip) loopback_networks
    → from_environment ip env ≡ accepted c
    → (b : Bool) × (allows_client ip c client_ip ≡ some b)
unfolding allows_client allows_address
allows_client_answers ip env c client_ip law local h =
    let (low, high, guarded) = from_environment-IsSafeConfig ip env c h in
    answers (ip.ip_address client_ip) (
      guarded_networks ip c.allow_lan c.host c.trust_proxy c.device_database
        c.allowed_client_networks local guarded)
  where
    answers :
        (address : Option Text)
        → All (IsNarrow ip) c.allowed_client_networks
        → (b : Bool) × (allows_address ip c.allowed_client_networks address ≡ some b)
    answers none narrow = (false, refl)
    answers (some address) narrow =
        is_in_any_answers ip address c.allowed_client_networks law narrow
