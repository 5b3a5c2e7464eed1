-- ===== src/HttpApp/Responses.antt =====
-- http_app.py: the paths, the headers and the answers of the surface.
use us_stock_helper.Prelude.{ℕ, Text, codes, Option, none, some, List, [], ◌∷◌, Dict, set_key}
use us_stock_helper.DeviceGate.{Body, error, Answer}

abbrev pub pairing_path : Text
pairing_path = codes "/v1/device-pairings"

abbrev pub market_brief_path : Text
market_brief_path = codes "/market-brief"

abbrev pub health_path : Text
health_path = codes "/health"

abbrev pub read_paths : List Text
read_paths = health_path ∷ codes "/decision" ∷ market_brief_path ∷ []

-- `_HEADERS`
abbrev pub common_headers : Dict Text
common_headers =
    (codes "Content-Type", codes "application/json; charset=utf-8")
    ∷ (codes "Cache-Control", codes "no-store")
    ∷ (codes "X-Content-Type-Options", codes "nosniff")
    ∷ []

-- `{**first, **second}`
unfoldable pub merge_headers : Dict Text → Dict Text → Dict Text
merge_headers first [] = first
merge_headers first ((k, v) ∷ second) = merge_headers (set_key k v first) second

-- `MAX_PAIRING_BODY_BYTES`
abbrev pub max_pairing_body_bytes : ℕ
max_pairing_body_bytes = 1024

-- The body of an answer: the gate's, the health report with its time, or what the service answers.
pub data Content (J : Type 0) : Type 0 where
  body_of : Body → Content J
  ready : Text → Content J
  payload : J → Content J

pub record Response (J : Type 0) : Type 0 where
  pub status : ℕ
  pub headers : Dict Text
  pub content : Content J

-- What `AnalysisService.decision` does: it returns, refuses the arguments or raises another error.
pub data Decided (J : Type 0) : Type 0 where
  decided : J → Decided J
  invalid : Text → Decided J
  broken : Decided J

module _ {J : Type 0} where
  abbrev pub refuse : ℕ → Dict Text → Text → Text → Response J
  refuse status headers code message = record {
    status = status;
    headers = merge_headers common_headers headers;
    content = body_of (error code message);
  }

  -- `_answer`
  unfoldable pub answer_of : Answer → Response J
  answer_of a = record {
    status = a.status;
    headers = merge_headers common_headers a.headers;
    content = body_of a.body;
  }

  abbrev pub respond : Content J → Response J
  respond content = record { status = 200; headers = common_headers; content = content }

  abbrev pub not_exposed : Response J
  not_exposed =
      refuse 404 [] (codes "PATH_NOT_ALLOWED")
        (codes "Path is not exposed by this read-only service")

  abbrev pub only_get : Response J
  only_get =
      refuse 405 ((codes "Allow", codes "GET") ∷ []) (codes "METHOD_NOT_ALLOWED")
        (codes "Only read-only GET requests are supported")

  unfoldable pub brief_response : Option J → Response J
  brief_response none =
      refuse 500 [] (codes "ANALYSIS_FAILED") (codes "The market brief could not be composed")
  brief_response (some j) = respond (payload j)

  unfoldable pub decision_response : Decided J → Response J
  decision_response (decided j) = respond (payload j)
  decision_response (invalid message) = refuse 400 [] (codes "INVALID_ARGUMENT") message
  decision_response broken =
      refuse 500 [] (codes "ANALYSIS_FAILED") (codes "The decision chain could not be evaluated")
