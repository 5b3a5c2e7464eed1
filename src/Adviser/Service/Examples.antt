-- ===== src/Adviser/Service/Examples.antt =====
-- client.py, gating.py and service.py: tests, and the theorems at concrete inputs.
use us_stock_helper.Prelude.{
  strip, ℕ, ◌≤◌, text_eq, codes, ◌≡◌, refl, ap, true, false, leb, none, some, [], ◌∷◌, ◌⊎◌,
  count_where, if◌then◌else◌,
}
use us_stock_helper.Adviser.Shown.{IsShownInterpretation}
use us_stock_helper.Adviser.Client.{
  after_reply, retry_from, AdviserLlmConfig, finite, is_accepted_config, Reply, returned, retryable,
  broken, value, called, slept, call_with_retry,
}
use us_stock_helper.Adviser.Client.Retry.{EndsFrom, call_with_retry-Ends}
use us_stock_helper.Scoring.Types.{stale_data}
use us_stock_helper.Adviser.Gating.{CouncilVerdict}
use us_stock_helper.Adviser.Service.{
  guarded, ask_model, use_call, require_parsed, read_news, of_traced, outcome_of, Message,
  AdviserLlm, Baseline, crashed, interpret_news,
}
use us_stock_helper.Adviser.Service.Outcomes.{result_of, interpret_news-IsShown}
use us_stock_helper.Adviser.Service.Degrades.{is_call, IsAnswered, interpret_news-Ends}
use us_stock_helper.Adviser.Examples.{
  ascii, packet, interpretation, shown_interpretation, news_traces, brief, shown_brief,
}

abbrev settings : AdviserLlmConfig
settings = record {
  model = codes "m";
  api_key_env = codes "K";
  request_timeout_seconds = finite 60;
  council_timeout_seconds = finite 300;
  max_attempts = 3;
  retry_backoff_seconds = finite 1;
  news_effort = codes "low";
  council_effort = codes "high";
  news_max_output_tokens = 4000;
  council_max_output_tokens = 16000;
  max_council_seats = 13;
}

settings_accepted : is_accepted_config settings ≡ true
unfolding is_accepted_config strip text_eq
settings_accepted = refl

-- Two failures of the transport, then what is given.
abbrev third_time : {A : Type 0} → A → ℕ → Reply A
third_time a n = if leb 3 n then returned a else retryable

two_waits :
    call_with_retry settings (third_time (codes "x"))
    ≡ (value (codes "x"), called ∷ slept 1 ∷ called ∷ slept 2 ∷ called ∷ [])
unfolding call_with_retry retry_from after_reply
two_waits = refl

call_with_retry-Ends_example :
    EndsFrom 3 1 (third_time (codes "x")) 0 (call_with_retry settings (third_time (codes "x")))
call_with_retry-Ends_example =
    call_with_retry-Ends settings (third_time (codes "x")) settings_accepted

abbrev llm : AdviserLlm
llm = record { config = settings; usage = none; unavailable_reason = none }

abbrev message : {A : Type 0} → A → Message A
message a = record { usage = none; is_refusal = false; parsed_output = some a }

news_arrives :
    result_of (interpret_news ascii packet (third_time (message interpretation)) llm).0
    ≡ some shown_interpretation
unfolding interpret_news read_news guarded ask_model use_call call_with_retry retry_from after_reply
    require_parsed
news_arrives = ap (λ t. result_of (outcome_of (of_traced t))) news_traces

interpret_news-IsShown_example : IsShownInterpretation ascii packet shown_interpretation
interpret_news-IsShown_example =
    interpret_news-IsShown ascii packet (third_time (message interpretation)) llm
      shown_interpretation news_arrives

interpret_news-Ends_example :
    let r = interpret_news ascii packet (third_time (message interpretation)) llm in
    (count_where is_call r.2 ≤ 3)
    × (IsAnswered r.0
        ⊎ ((r.0 ≡ crashed) × ((k : ℕ) × (third_time (message interpretation) k ≡ broken))))
interpret_news-Ends_example =
    interpret_news-Ends ascii packet (third_time (message interpretation)) llm settings_accepted

abbrev blocked_base : Baseline ℕ
blocked_base = record { score = 15000; direction = codes "bullish"; hard_gates = stale_data ∷ [] }

abbrev blocked_verdict : CouncilVerdict ℕ
blocked_verdict = record {
  baseline_score = 15000;
  adjusted_score = 15000;
  score_adjustment = 10000;
  objective_direction = codes "bullish";
  actionable = false;
  blocked_by = stale_data ∷ [];
  brief = shown_brief;
}
