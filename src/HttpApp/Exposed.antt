-- ===== src/HttpApp/Exposed.antt =====
-- http_app.py, `build_server`: the gate of a configuration, and what that means for a deployment that
-- others can reach.
use us_stock_helper.Prelude.{
  Text, ◌≡◌, Bool, true, false, ◌||◌, Option, none, some, List, if◌then◌else◌, Dict, inl, inr, ◌⊎◌,
}
use us_stock_helper.Prelude.Checked.{accepted}
use us_stock_helper.DeviceAuth.Store.Rows.{DeviceStore}
use us_stock_helper.DeviceAuth.Store.Codes.{is_none}
use us_stock_helper.HttpApp.Config.{IpAddresses, AnalysisServerConfig, from_environment}
use us_stock_helper.HttpApp.Configured.{IsGuarded, from_environment-IsSafeConfig}
use us_stock_helper.HttpApp.Surface.{AnalysisService, Gate, HttpRequest, admit}
use us_stock_helper.HttpApp.Permitted.{HasNoReading, IsAuthorized, admit_needs_permission}

-- The gate that is opened when there is a database, if none is handed in.
unfoldable pub gate_for : Option Gate → AnalysisServerConfig → Gate → Option Gate
gate_for (some gate) config opened = some gate
gate_for none config opened = if is_none config.device_database then none else some opened

exposed_has_database :
    (ip : IpAddresses) (allow_lan : Bool) (host : Text) (trust_proxy : Bool)
    (database : Option Text) (networks : List Text)
    → IsGuarded ip allow_lan host trust_proxy database networks
    → (allow_lan || trust_proxy) ≡ true
    → is_none database ≡ false
exposed_has_database ip true host trust_proxy database networks (stored, _, _) h = stored
exposed_has_database ip false host trust_proxy database networks (_, _, inl private) h = cc
exposed_has_database ip false host trust_proxy database networks (_, _, inr stored) h = stored

module _ {J W : Type 0} where
  -- A server that the environment starts in LAN mode or behind a proxy, with the gate of its own
  -- database, gives a reading only for a token that verifies.
  pub exposed_needs_token :
      (ip : IpAddresses) (env : Dict Text) (config : AnalysisServerConfig) (opened : Gate)
      (service : AnalysisService J W) (as_of : Text) (request : HttpRequest) (s : DeviceStore)
      (w : W)
      → from_environment ip env ≡ accepted config
      → (config.allow_lan || config.trust_proxy) ≡ true
      → let r = admit ip config (gate_for none config opened) service as_of request s w in
        ((r.2 ≡ w) × HasNoReading r.0) ⊎ IsAuthorized (some opened) request s
  unfolding gate_for
  exposed_needs_token ip env config opened service as_of request s w h exposed =
      let (low, high, guarded) = from_environment-IsSafeConfig ip env config h in
      let stored =
        exposed_has_database ip config.allow_lan config.host config.trust_proxy
          config.device_database config.allowed_client_networks guarded exposed in
      rw stored (elim (admit_needs_permission ip config (some opened) service as_of request s w) [
        | inl nothing ↦ inl nothing
        | inr (allowed, read, token) ↦ inr token
      ])
