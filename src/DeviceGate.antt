-- ===== src/DeviceGate.antt =====
-- services/analysis_api/src/us_stock_helper_analysis_api/device_gate.py: the credential boundary in
-- front of the read-only surface.
--
-- `json.loads` of the decoded body and `ipaddress.ip_address` are arguments, `none` being their
-- `ValueError`. A request's answer is its status, its headers and its body.
pub mod Answers
pub mod Identity
mod Examples
use us_stock_helper.Prelude.{
  ℕ, Text, codes, text_eq, starts_with, drop, length, decimal, Bool, true, false, ◌&&◌, ◌||◌,
  Option, none, some, List, [], ◌∷◌, if◌then◌else◌,
}
use us_stock_helper.DeviceAuth.Errors.{Result, ok, raised}
use us_stock_helper.DeviceAuth.Store.Rows.{DeviceStore}
use us_stock_helper.DeviceAuth.Store.Codes.{is_none}
use us_stock_helper.DeviceAuth.Credentials.Codes.{PyValue, text, other}
use us_stock_helper.DeviceAuth.Credentials.Tokens.{is_empty}
use us_stock_helper.DeviceAuth.Action.{Action}
use us_stock_helper.DeviceAuth.Service.Types.{
  PairingOutcome, TokenVerification, authorized, code_throttled,
}

-- The two calls that the boundary may make.
pub record DeviceAuthority : Type 0 where
  pub redeem_pairing_code : PyValue → PyValue → Action PairingOutcome
  pub verify_token : PyValue → Action TokenVerification

-- The bodies of the answers; `paired` has a null `expiresAt`.
pub data Body : Type 0 where
  error : Text → Text → Body
  paired : Text → Text → Body

pub record Answer : Type 0 where
  pub status : ℕ
  pub headers : List (Text × Text)
  pub body : Body

abbrev pub answer : ℕ → Text → Text → Answer
answer status code message = record { status = status; headers = []; body = error code message }

-- `_unavailable`
abbrev pub auth_unavailable : Answer
auth_unavailable =
    answer 503 (codes "AUTH_UNAVAILABLE") (codes "The authorization store cannot be read right now")

abbrev pub pairing_unavailable : Answer
pairing_unavailable =
    answer 503 (codes "PAIRING_UNAVAILABLE") (codes "The pairing store cannot be read right now")

abbrev pub auth_required : Answer
auth_required = answer 401 (codes "AUTH_REQUIRED") (codes "A paired device token is required")

abbrev pub not_json : Answer
not_json =
    answer 400 (codes "INVALID_ARGUMENT") (codes "The pairing request body is not a JSON object")

abbrev pub bearer : Text
bearer = codes "Bearer "

-- The token in the header, or the empty text.
unfoldable pub bearer_token : Option Text → Text
bearer_token none = []
bearer_token (some header) = if starts_with header bearer then drop (length bearer) header else []

unfoldable pub refusal_of : Result TokenVerification → Option Answer
refusal_of (raised e) = some auth_unavailable
refusal_of (ok verified) = if authorized verified then none else some auth_required

-- None when the caller may proceed, otherwise the answer that it gets.
unfoldable pub refusal : DeviceAuthority → Option Text → DeviceStore → Option Answer × DeviceStore
refusal auth authorization s =
    let (r, t) = auth.verify_token (text (bearer_token authorization)) s in (refusal_of r, t)

-- What `json.loads` makes of a body: an object's fields, or another value.
pub data Payload : Type 0 where
  object : List (Text × PyValue) → Payload
  value : Payload

-- The claimed pairing code, or the sentinel.
pub data Attempt : Type 0 where
  not_an_attempt : Attempt
  attempt : PyValue → Attempt

unfoldable pub get_field : Text → List (Text × PyValue) → PyValue
get_field k [] = other
get_field k ((j, v) ∷ fields) = if text_eq j k then v else get_field k fields

unfoldable pub attempt_of : Option Payload → Attempt
attempt_of none = not_an_attempt
attempt_of (some (object fields)) = attempt (get_field (codes "pairingCode") fields)
attempt_of (some value) = not_an_attempt

unfoldable pub read_attempt : (Text → Option Payload) → Text → Attempt
unfolding attempt_of
read_attempt loads body = attempt_of (loads body)

abbrev pub retry_headers : Option ℕ → List (Text × Text)
retry_headers none = []
retry_headers (some seconds) = (codes "Retry-After", decimal seconds) ∷ []

abbrev pub reason_of : PairingOutcome → Text
reason_of o = elim o.reason [ none ↦ [] | some t ↦ t ]

abbrev pub is_throttled : Option Text → Bool
is_throttled none = false
is_throttled (some t) = text_eq t code_throttled

unfoldable pub refused_answer : PairingOutcome → Answer
refused_answer o =
    if is_throttled o.reason
    then record {
      status = 429;
      headers = retry_headers o.retry_after_seconds;
      body = error (codes "RATE_LIMITED") code_throttled;
    }
    else answer 400 (codes "INVALID_PAIRING_CODE") (reason_of o)

unfoldable pub outcome_answer : Result PairingOutcome → Answer
unfolding refused_answer
outcome_answer (raised e) = pairing_unavailable
outcome_answer (ok o) = elim o.token [
  | none ↦ refused_answer o
  | some token ↦ elim o.device_id [
    | none ↦ refused_answer o
    | some id ↦ record { status = 200; headers = []; body = paired id token }
  ]
]

unfoldable pub redeem_attempt :
    DeviceAuthority → Attempt → Text → DeviceStore → Answer × DeviceStore
redeem_attempt auth not_an_attempt client_id s = (not_json, s)
redeem_attempt auth (attempt code) client_id s =
    let (r, t) = auth.redeem_pairing_code code (text client_id) s in (outcome_answer r, t)

unfoldable pub redeem :
    DeviceAuthority → (Text → Option Payload) → Text → Text → DeviceStore → Answer × DeviceStore
redeem auth loads body client_id s = redeem_attempt auth (read_attempt loads body) client_id s
