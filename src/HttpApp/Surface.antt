-- ===== src/HttpApp/Surface.antt =====
-- http_app.py, `AnalysisApplication.handle` and `_admit`: which request reaches what. What the
-- analysis service keeps is the state `W`, what it answers is a `J`; both are parameters.
use us_stock_helper.Prelude.{
  Text, codes, text_eq, strip, Bool, true, false, not, Option, none, some, List, [], ◌∷◌, leb, find,
  take, if◌then◌else◌, ℤ, pos, negsuc, read_int,
}
use us_stock_helper.Prelude.Checked.{Checked, accepted, rejected, ◌>>=◌}
use mathlib.Core.List.{reverse}
use us_stock_helper.DeviceAuth.Store.Rows.{DeviceStore}
use us_stock_helper.DeviceAuth.Credentials.Tokens.{is_empty}
use us_stock_helper.DeviceGate.{DeviceAuthority, Answer, Payload, refusal, redeem}
use us_stock_helper.DeviceGate.Identity.{rate_limit_identity}
use us_stock_helper.HttpApp.Query.{Query, AdviserFlag, one, flag, is_one_of}
use us_stock_helper.HttpApp.Config.{IpAddresses, AnalysisServerConfig, allows_client}
use us_stock_helper.HttpApp.Responses.{
  pairing_path, market_brief_path, health_path, read_paths, ready, Response, Decided, refuse,
  answer_of, respond, not_exposed, only_get, brief_response, decision_response,
  max_pairing_body_bytes,
}

-- The service that the surface reads through; none is an error of the market brief.
pub record AnalysisService (J W : Type 0) : Type 0 where
  pub decision : Text → Text → AdviserFlag → W → Decided J × W
  pub market_brief : W → Option J × W

-- The gate with the service behind it, for one request, and `json.loads`.
pub record Gate : Type 0 where
  pub authority : DeviceAuthority
  pub loads : Text → Option Payload

-- A request as the handler sees it: `sent` is what the client writes after the headers.
pub record HttpRequest : Type 0 where
  pub method : Text
  pub path : Text
  pub query : Query
  pub authorization : Option Text
  pub client_ip : Text
  pub forwarded_for : List Text
  pub content_length : Option Text
  pub sent : Text

-- `_forwarded_client`: the last line that is not blank
unfoldable pub forwarded_client : List Text → Option Text
forwarded_client lines = find (λ line. not (is_empty (strip line))) (reverse lines)

unfoldable pub read_length : Option ℤ → Text → Option Text
read_length none sent = none
read_length (some (negsuc n)) sent = none
read_length (some (pos n)) sent = if leb n max_pairing_body_bytes then some (take n sent) else none

-- `_pairing_body`
unfoldable pub pairing_body : Option Text → Text → Option Text
pairing_body none sent = some []
pairing_body (some declared) sent = read_length (read_int declared) sent

abbrev pub question_of : Query → Checked Text (Text × Text × AdviserFlag)
question_of query = do
  symbol ← one query (codes "symbol")
  horizon ← one query (codes "horizon")
  adviser ← flag query (codes "adviser")
  accepted (symbol, horizon, adviser)

module _ {J : Type 0} where
  unfoldable pub redeem_body : Gate → Text → Option Text → DeviceStore → Response J × DeviceStore
  redeem_body gate client_id none s = (
    refuse 413 [] (codes "PAYLOAD_TOO_LARGE")
        (codes "The pairing request body is too large to read"),
    s,
  )
  redeem_body gate client_id (some body) s =
      let (a, t) = redeem gate.authority gate.loads body client_id s in (answer_of a, t)

  -- The branch of the pairing path.
  unfoldable pub pair_device :
      IpAddresses → Bool → Option Gate → HttpRequest → DeviceStore → Response J × DeviceStore
  pair_device ip trust_proxy none request s = (not_exposed, s)
  pair_device ip trust_proxy (some gate) request s =
      if not (text_eq request.method (codes "POST"))
      then (
        refuse 405 ((codes "Allow", codes "POST") ∷ []) (codes "METHOD_NOT_ALLOWED")
            (codes "Pairing accepts only POST"),
        s,
      )
      else redeem_body gate
          (rate_limit_identity ip.ip_address (forwarded_client request.forwarded_for)
            request.client_ip trust_proxy)
          (pairing_body request.content_length request.sent) s

module _ {J W : Type 0} where
  unfoldable pub decide :
      AnalysisService J W → Checked Text (Text × Text × AdviserFlag) → W → Response J × W
  decide service (rejected message) w = (refuse 400 [] (codes "INVALID_ARGUMENT") message, w)
  decide service (accepted (symbol, horizon, adviser)) w =
      let (r, v) = service.decision symbol horizon adviser w in (decision_response r, v)

  -- What follows the checks of the path and the method.
  unfoldable pub read_from : AnalysisService J W → Text → Text → Query → W → Response J × W
  read_from service as_of path query w =
      if text_eq path health_path
      then (respond (ready as_of), w)
      else if text_eq path market_brief_path
      then (brief_response (service.market_brief w).0, (service.market_brief w).1)
      else decide service (question_of query) w

  -- `handle`, where `as_of` is what the clock says.
  unfoldable pub handle : AnalysisService J W → Text → Text → Text → Query → W → Response J × W
  handle service as_of method path query w =
      if not (is_one_of read_paths path)
      then (not_exposed, w)
      else if not (text_eq method (codes "GET"))
      then (only_get, w)
      else read_from service as_of path query w

  -- What the answer of the gate lets through.
  unfoldable pub handle_unless :
      Option Answer → AnalysisService J W → Text → HttpRequest → W → Response J × W
  handle_unless (some refused) service as_of request w = (answer_of refused, w)
  handle_unless none service as_of request w =
      handle service as_of request.method request.path request.query w

  -- Every other path: the credential first.
  unfoldable pub read_path :
      Option Gate
      → AnalysisService J W
      → Text
      → HttpRequest
      → DeviceStore
      → W
      → Response J × DeviceStore × W
  read_path none service as_of request s w =
      let (r, v) = handle_unless none service as_of request w in (r, s, v)
  read_path (some gate) service as_of request s w =
      let (refused, t) = refusal gate.authority request.authorization s in
      let (r, v) = handle_unless refused service as_of request w in (r, t, v)

  unfoldable pub admit_client :
      IpAddresses
      → Option Bool
      → Bool
      → Option Gate
      → AnalysisService J W
      → Text
      → HttpRequest
      → DeviceStore
      → W
      → Option (Response J) × DeviceStore × W
  admit_client ip none trust_proxy gate service as_of request s w = (none, s, w)
  admit_client ip (some false) trust_proxy gate service as_of request s w = (
    some (refuse 403 [] (codes "CLIENT_NOT_ALLOWED") (codes "Client network is not allowed")),
    s,
    w,
  )
  admit_client ip (some true) trust_proxy gate service as_of request s w =
      let (p, t) = pair_device ip trust_proxy gate request s in
      let (r, u, v) = read_path gate service as_of request s w in
      if text_eq request.path pairing_path then (some p, t, w) else (some r, u, v)

  -- `_admit`, with the body and the forwarded address as the handler finds them. No answer is an
  -- exception that leaves the handler.
  unfoldable pub admit :
      IpAddresses
      → AnalysisServerConfig
      → Option Gate
      → AnalysisService J W
      → Text
      → HttpRequest
      → DeviceStore
      → W
      → Option (Response J) × DeviceStore × W
  admit ip config gate service as_of request s w =
      admit_client ip (allows_client ip config request.client_ip) config.trust_proxy gate service
        as_of request s w
