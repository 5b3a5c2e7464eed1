-- ===== src/Adviser/Client.antt =====
-- services/adviser_llm/src/adviser_llm/client.py: the settings, the measured usage, and the bounded
-- retry of a call. Times are exact numbers in one unit, which doubling keeps exact in floating point
-- too; messages and the log are left out.
pub mod Retry
use us_stock_helper.Prelude.{
  ℕ, zero, suc, ◌+◌, ◌-◌, ◌*◌, ◌^◌, Text, strip, Bool, not, ◌&&◌, ◌||◌, Option, none, some, List,
  [], ◌∷◌, ltb, leb, ◌==◌, if◌then◌else◌, codes, Dict, get_key,
}
use us_stock_helper.Prelude.Checked.{Checked, accepted, rejected, require, ◌>>=◌, ◌>>◌}
use us_stock_helper.DeviceAuth.Credentials.Tokens.{is_empty}
use us_stock_helper.Adviser.Evidence.{is_in}

-- A time that a setting gives: finite, or not (an infinity or NaN).
pub data Seconds : Type 0 where
  finite : ℕ → Seconds
  negative not_finite : Seconds

pub record AdviserLlmConfig : Type 0 where
  pub model : Text
  pub api_key_env : Text
  pub request_timeout_seconds : Seconds
  pub council_timeout_seconds : Seconds
  pub max_attempts : ℕ
  pub retry_backoff_seconds : Seconds
  pub news_effort : Text
  pub council_effort : Text
  pub news_max_output_tokens : ℕ
  pub council_max_output_tokens : ℕ
  pub max_council_seats : ℕ

abbrev pub efforts : List Text
efforts = codes "low" ∷ codes "medium" ∷ codes "high" ∷ codes "xhigh" ∷ codes "max" ∷ []

abbrev pub is_positive_time : Seconds → Bool
is_positive_time (finite n) = ltb 0 n
is_positive_time negative = Bool.false
is_positive_time not_finite = Bool.false

abbrev pub is_some_time : Seconds → Bool
is_some_time (finite n) = Bool.true
is_some_time negative = Bool.false
is_some_time not_finite = Bool.false

-- `__post_init__`: whether the constructor takes the settings.
unfoldable pub is_accepted_config : AdviserLlmConfig → Bool
is_accepted_config c =
    (not (is_empty (strip c.model) || is_empty (strip c.api_key_env))
      && (is_positive_time c.request_timeout_seconds && is_positive_time c.council_timeout_seconds))
    && (((leb 1 c.max_attempts && leb c.max_attempts 5) && is_some_time c.retry_backoff_seconds)
        && ((is_in c.news_effort efforts && is_in c.council_effort efforts)
            && (leb 1 c.news_max_output_tokens
                && (leb 1 c.council_max_output_tokens && leb 1 c.max_council_seats))))

-- The wait before the first retry; a constructed configuration has one.
abbrev pub backoff_of : AdviserLlmConfig → ℕ
backoff_of c = elim c.retry_backoff_seconds [ finite n ↦ n | negative ↦ 0 | not_finite ↦ 0 ]

-- `build_client`: the key that the client is given, or none, a `MissingCredentialError`.
abbrev key_text : Option Text → Text
key_text none = []
key_text (some t) = t

unfoldable pub filled_key : Text → Option Text
filled_key raw = if is_empty (strip raw) then none else some (strip raw)

unfoldable pub build_client : AdviserLlmConfig → Dict Text → Option Text
build_client c environ = filled_key (key_text (get_key c.api_key_env environ))

pub record TokenUsage : Type 0 where
  pub input_tokens : ℕ
  pub output_tokens : ℕ
  pub cache_creation_input_tokens : ℕ
  pub cache_read_input_tokens : ℕ

abbrev pub no_usage : TokenUsage
no_usage = record {
  input_tokens = 0;
  output_tokens = 0;
  cache_creation_input_tokens = 0;
  cache_read_input_tokens = 0;
}

-- `__add__`
unfoldable pub add_usage : TokenUsage → TokenUsage → TokenUsage
add_usage a b = record {
  input_tokens = a.input_tokens + b.input_tokens;
  output_tokens = a.output_tokens + b.output_tokens;
  cache_creation_input_tokens = a.cache_creation_input_tokens + b.cache_creation_input_tokens;
  cache_read_input_tokens = a.cache_read_input_tokens + b.cache_read_input_tokens;
}

-- How one call of the operation ends: it returns, raises one of `RETRYABLE_ERRORS` or another
-- `APIError`, finds that the output has not the form asked for (`ValidationError`), or raises
-- something else.
pub data Reply (A : Type 0) : Type 0 where
  returned : A → Reply A
  retryable refused malformed broken : Reply A

-- How the retried call ends. The number is that of the attempts made; `unfinished` is the end of the
-- fuel.
pub data Called (A : Type 0) : Type 0 where
  value : A → Called A
  exhausted : ℕ → Called A
  not_retryable : ℕ → Called A
  invalid_output : Called A
  raised : Called A
  unfinished : Called A

-- What the loop does to the outside: a call, or a wait.
pub data Step : Type 0 where
  called : Step
  slept : ℕ → Step

module _ {A : Type 0} where
  -- What ends the loop at a reply, but for one that is tried again.
  abbrev pub settle : ℕ → Reply A → Called A
  settle attempts (returned a) = value a
  settle attempts retryable = exhausted attempts
  settle attempts refused = not_retryable attempts
  settle attempts malformed = invalid_output
  settle attempts broken = raised

  abbrev pub is_retryable : Reply A → Bool
  is_retryable (returned a) = Bool.false
  is_retryable retryable = Bool.true
  is_retryable refused = Bool.false
  is_retryable malformed = Bool.false
  is_retryable broken = Bool.false

  -- The body of the loop at the `attempts`-th reply; `next` is what the loop goes on to do.
  unfoldable pub after_reply : ℕ → ℕ → ℕ → Reply A → Called A × List Step → Called A × List Step
  after_reply maximum backoff attempts reply next =
      if is_retryable reply && ltb attempts maximum
      then (next.0, called ∷ slept (backoff * 2 ^ (attempts - 1)) ∷ next.1)
      else (settle attempts reply, called ∷ [])

  -- `while attempts < config.max_attempts`, where `replies` gives the reply to each attempt.
  unfoldable pub retry_from : ℕ → ℕ → ℕ → (ℕ → Reply A) → ℕ → Called A × List Step
  retry_from zero maximum backoff replies attempts = (unfinished, [])
  retry_from (suc fuel) maximum backoff replies attempts =
      let next = retry_from fuel maximum backoff replies (suc attempts) in
      if ltb attempts maximum
      then after_reply maximum backoff (suc attempts) (replies (suc attempts)) next
      else (exhausted attempts, [])

  unfoldable pub call_with_retry : AdviserLlmConfig → (ℕ → Reply A) → Called A × List Step
  call_with_retry c replies =
      retry_from (suc c.max_attempts) c.max_attempts (backoff_of c) replies 0
