-- ===== src/HttpApp/Permitted.antt =====
-- http_app.py: what a request must bring before the analysis service is asked anything.
use us_stock_helper.Prelude.{
  Text, codes, text_eq, ◌≡◌, arith, refl, Bool-cases, Option-cases, Bool, true, false, Option, none,
  some, inl, inr, ◌⊎◌,
}
use us_stock_helper.DeviceAuth.Errors.{Result, ok, raised}
use us_stock_helper.DeviceAuth.Store.Rows.{DeviceStore}
use us_stock_helper.DeviceAuth.Credentials.Codes.{text}
use us_stock_helper.DeviceAuth.Service.Types.{TokenVerification, authorized}
use us_stock_helper.DeviceGate.{Body, bearer_token, refusal_of, refusal}
use us_stock_helper.HttpApp.Query.{is_one_of}
use us_stock_helper.HttpApp.Config.{IpAddresses, AnalysisServerConfig, allows_client}
use us_stock_helper.HttpApp.Responses.{pairing_path, read_paths, body_of, Response, answer_of}
use us_stock_helper.HttpApp.Surface.{
  AnalysisService, Gate, HttpRequest, handle, handle_unless, read_path, pair_device, redeem_body,
  admit_client, admit,
}

-- The answer says nothing but what the gate or an error says.
abbrev pub IsBare : {J : Type 0} → Response J → Type 0
IsBare r = (b : Body) × (r.content ≡ body_of b)

abbrev pub HasNoReading : {J : Type 0} → Option (Response J) → Type 0
HasNoReading none = Unit
HasNoReading (some r) = IsBare r

-- The token that the request carries verifies now; there is nothing to verify without a gate.
abbrev pub IsAuthorized : Option Gate → HttpRequest → DeviceStore → Type 0
IsAuthorized none request s = Unit
IsAuthorized (some gate) request s =
    (v : TokenVerification) × ((gate.authority.verify_token
        (text (bearer_token request.authorization)) s).0
      ≡ ok v)
    × (authorized v ≡ true)

abbrev pub IsRead : HttpRequest → Type 0
IsRead request =
    (is_one_of read_paths request.path ≡ true) × (text_eq request.method (codes "GET") ≡ true)

abbrev pub IsPermitted :
    IpAddresses → AnalysisServerConfig → Option Gate → HttpRequest → DeviceStore → Type 0
IsPermitted ip config gate request s =
    (allows_client ip config request.client_ip ≡ some true)
    × IsRead request
    × IsAuthorized gate request s

refusal_of-authorized :
    (r : Result TokenVerification)
    → refusal_of r ≡ none
    → (v : TokenVerification) × (r ≡ ok v) × (authorized v ≡ true)
unfolding refusal_of
refusal_of-authorized (raised e) h = cc
refusal_of-authorized (ok v) h = (v, refl, ground arith)

module _ {J : Type 0} where
  redeem_body-IsBare :
      (gate : Gate) (client_id : Text) (body : Option Text) (s : DeviceStore)
      → IsBare {J = J} (redeem_body gate client_id body s).0
  unfolding redeem_body answer_of
  redeem_body-IsBare gate client_id none s = (_, refl)
  redeem_body-IsBare gate client_id (some body) s = (_, refl)

  pair_device-IsBare :
      (ip : IpAddresses) (trust_proxy : Bool) (gate : Option Gate) (request : HttpRequest)
      (s : DeviceStore)
      → IsBare {J = J} (pair_device ip trust_proxy gate request s).0
  unfolding pair_device
  pair_device-IsBare ip trust_proxy none request s = (_, refl)
  pair_device-IsBare ip trust_proxy (some gate) request s =
      elim (Bool-cases (text_eq request.method (codes "POST"))) [
        | inr other ↦ rw other (_, refl)
        | inl post ↦ rw post (redeem_body-IsBare gate _ _ s)
      ]

module _ {J W : Type 0} where
  handle_reads :
      (service : AnalysisService J W) (as_of : Text) (request : HttpRequest) (w : W)
      → let r = handle service as_of request.method request.path request.query w in
        ((r.1 ≡ w) × IsBare r.0) ⊎ IsRead request
  unfolding handle
  handle_reads service as_of request w = elim (Bool-cases (is_one_of read_paths request.path)) [
    | inr out ↦ rw out (inl (refl, (_, refl)))
    | inl path ↦ elim (Bool-cases (text_eq request.method (codes "GET"))) [
      | inr other ↦ rw (path, other) (inl (refl, (_, refl)))
      | inl get ↦ inr (path, get)
    ]
  ]

  -- Either the gate let the request through to `handle`, or the answer is the gate's.
  read_path-reads :
      (gate : Option Gate) (service : AnalysisService J W) (as_of : Text) (request : HttpRequest)
      (s : DeviceStore) (w : W)
      → let r = read_path gate service as_of request s w in
        ((r.2 ≡ w) × IsBare r.0) ⊎ (IsRead request × IsAuthorized gate request s)
  unfolding read_path handle_unless refusal answer_of
  read_path-reads none service as_of request s w = elim (handle_reads service as_of request w) [
    | inl bare ↦ inl bare
    | inr read ↦ inr (read, tt)
  ]
  read_path-reads (some gate) service as_of request s w =
      let verified =
        (gate.authority.verify_token (text (bearer_token request.authorization)) s).0 in
      elim (Option-cases (refusal_of verified)) [
        | inr (refused, e) ↦ rw e (inl (refl, (_, refl)))
        | inl through ↦ elim (handle_reads service as_of request w) [
          | inl bare ↦ rw through (inl bare)
          | inr read ↦ inr (read, refusal_of-authorized verified through)
        ]
      ]

  admit_client-reads :
      (ip : IpAddresses) (allowed : Option Bool) (trust_proxy : Bool) (gate : Option Gate)
      (service : AnalysisService J W) (as_of : Text) (request : HttpRequest) (s : DeviceStore)
      (w : W)
      → let r = admit_client ip allowed trust_proxy gate service as_of request s w in
        ((r.2 ≡ w) × HasNoReading r.0)
        ⊎ ((allowed ≡ some true) × IsRead request × IsAuthorized gate request s)
  unfolding admit_client
  admit_client-reads ip none trust_proxy gate service as_of request s w = inl (refl, tt)
  admit_client-reads ip (some false) trust_proxy gate service as_of request s w =
      inl (refl, (_, refl))
  admit_client-reads ip (some true) trust_proxy gate service as_of request s w =
      elim (Bool-cases (text_eq request.path pairing_path)) [
        | inl pairing ↦ rw pairing (inl (refl, pair_device-IsBare ip trust_proxy gate request s))
        | inr other ↦ elim (read_path-reads gate service as_of request s w) [
          | inl bare ↦ rw other (inl bare)
          | inr (read, token) ↦ inr (refl, read, token)
        ]
      ]

  -- The analysis service is asked, and an answer holds a reading of it or the health report, only for
  -- a GET of a path that is read, from an allowed network, and, when there is a gate, with a token
  -- that verifies at that moment. Any other request leaves the service as it was, and its answer, if
  -- it gets one, says only what the gate or an error says.
  pub admit_needs_permission :
      (ip : IpAddresses) (config : AnalysisServerConfig) (gate : Option Gate)
      (service : AnalysisService J W) (as_of : Text) (request : HttpRequest) (s : DeviceStore)
      (w : W)
      → let r = admit ip config gate service as_of request s w in
        ((r.2 ≡ w) × HasNoReading r.0) ⊎ IsPermitted ip config gate request s
  unfolding admit
  admit_needs_permission ip config gate service as_of request s w =
      admit_client-reads ip (allows_client ip config request.client_ip) config.trust_proxy gate
        service as_of request s w
