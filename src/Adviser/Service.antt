-- ===== src/Adviser/Service.antt =====
-- services/adviser_llm/src/adviser_llm/service.py: what the model is asked, and how the answer
-- degrades. The text of a request is not modelled; the replies to its attempts are an argument.
pub mod Outcomes
pub mod Degrades
mod Examples
use us_stock_helper.Prelude.{
  ℕ, Text, Bool, true, false, Option, none, some, List, [], ◌∷◌, if◌then◌else◌, Dict,
}
use us_stock_helper.Prelude.Checked as Check
use us_stock_helper.Adviser.Tokens.{Builtins}
use us_stock_helper.Adviser.Evidence.{EvidencePacket}
use us_stock_helper.Adviser.Frameworks.{AnalysisFramework, select_frameworks}
use us_stock_helper.Adviser.Trace.{
  CouncilBrief, NewsInterpretation, TracedBrief, TracedInterpretation, Refusal, Traced, ok, refused,
  trace_brief, trace_interpretation,
}
use us_stock_helper.Adviser.Client.{
  AdviserLlmConfig, TokenUsage, no_usage, add_usage, Reply, Called, value, exhausted, not_retryable,
  invalid_output, raised, unfinished, Step, build_client, call_with_retry,
}
use us_stock_helper.Prelude.Doubles.{Doubles, IsOrdered, clamp}
use us_stock_helper.Scoring.Types.{HardGate}
use us_stock_helper.Adviser.Gating.{GatingError, CouncilVerdict, apply_hard_gate}

-- Why there is no result: the errors that `_guarded` turns into a reason.
pub data Reason : Type 0 where
  missing_credential : Reason
  out_of_attempts call_refused : ℕ → Reason
  output_invalid model_refused no_output : Reason
  untraceable : Refusal → Reason

-- Either a result or a stated reason that there is none.
pub record AdviserOutcome (A : Type 0) : Type 0 where
  pub value : Option A
  pub unavailable_reason : Option Reason

-- `__post_init__`
abbrev pub is_accepted_outcome : {A : Type 0} → Option A → Option Reason → Bool
is_accepted_outcome none none = false
is_accepted_outcome none (some r) = true
is_accepted_outcome (some a) none = true
is_accepted_outcome (some a) (some r) = false

-- What a call of the service does: it returns, raises an error that is no `AdviserLlmError` or
-- `ValidationError`, or does not end.
pub data Answer (A : Type 0) : Type 0 where
  answered : AdviserOutcome A → Answer A
  crashed unending : Answer A

-- The same inside of `_guarded`.
pub data Attempt (A : Type 0) : Type 0 where
  done : A → Attempt A
  unavailable : Reason → Attempt A
  crashes never_ends : Attempt A

-- A message of the model: what it reports, whether its `stop_reason` is a refusal, and its output.
pub record Message (A : Type 0) : Type 0 where
  pub usage : Option TokenUsage
  pub is_refusal : Bool
  pub parsed_output : Option A

-- `AdviserLlm`, whose client is behind the replies.
pub record AdviserLlm : Type 0 where
  pub config : AdviserLlmConfig
  pub usage : Option TokenUsage
  pub unavailable_reason : Option Reason

abbrev of_key : AdviserLlmConfig → Option Text → AdviserLlm
of_key config none = record {
  config = config;
  usage = none;
  unavailable_reason = some missing_credential;
}
of_key config (some key) = record { config = config; usage = none; unavailable_reason = none }

unfoldable pub from_environment : AdviserLlmConfig → Dict Text → AdviserLlm
from_environment config environ = of_key config (build_client config environ)

-- `self.usage or TokenUsage()`
abbrev pub usage_or_none : Option TokenUsage → TokenUsage
usage_or_none none = no_usage
usage_or_none (some u) = u

-- `_record_usage`
unfoldable pub record_usage : Option TokenUsage → AdviserLlm → AdviserLlm
record_usage none llm = llm
record_usage (some measured) llm = record llm {
  usage = some (add_usage (usage_or_none llm.usage) measured);
}

abbrev output_of : {A : Type 0} → Option A → Attempt A
output_of none = unavailable no_output
output_of (some a) = done a

-- `_require_parsed`
unfoldable pub require_parsed : {A : Type 0} → Message A → Attempt A
require_parsed m = if m.is_refusal then unavailable model_refused else output_of m.parsed_output

abbrev pub of_traced : {A : Type 0} → Traced A → Attempt A
of_traced (ok a) = done a
of_traced (refused e) = unavailable (untraceable e)

abbrev pub of_gated : {A : Type 0} → Check.Checked GatingError A → Attempt A
of_gated (Check.accepted a) = done a
of_gated (Check.rejected e) = crashes

module _ {A B : Type 0} where
  abbrev pub and_then : Attempt A → (A → Attempt B) → Attempt B
  and_then (done a) f = f a
  and_then (unavailable r) f = unavailable r
  and_then crashes f = crashes
  and_then never_ends f = never_ends

  -- What is made of the end of the retried call: a message's usage is recorded before it is read.
  unfoldable pub use_call :
      (A → Attempt B) → AdviserLlm → Called (Message A) → Attempt B × AdviserLlm
  use_call read llm (value m) = (and_then (require_parsed m) read, record_usage m.usage llm)
  use_call read llm (exhausted n) = (unavailable (out_of_attempts n), llm)
  use_call read llm (not_retryable n) = (unavailable (call_refused n), llm)
  use_call read llm invalid_output = (unavailable output_invalid, llm)
  use_call read llm raised = (crashes, llm)
  use_call read llm unfinished = (never_ends, llm)

  unfoldable pub ask_model :
      (A → Attempt B) → (ℕ → Reply (Message A)) → AdviserLlm → Attempt B × AdviserLlm × List Step
  ask_model read replies llm =
      let (called, steps) = call_with_retry llm.config replies in
      let (attempt, after) = use_call read llm called in (attempt, after, steps)

module _ {B : Type 0} where
  abbrev pub outcome_of : Attempt B → Answer B
  outcome_of (done b) = answered (record { value = some b; unavailable_reason = none })
  outcome_of (unavailable r) = answered (record { value = none; unavailable_reason = some r })
  outcome_of crashes = crashed
  outcome_of never_ends = unending

  -- `_guarded`: a service without a key asks nothing.
  unfoldable pub guarded :
      Option Reason
      → Attempt B × AdviserLlm × List Step
      → AdviserLlm
      → Answer B × AdviserLlm × List Step
  guarded (some r) operation llm =
      (answered (record { value = none; unavailable_reason = some r }), llm, [])
  guarded none (attempt, after, steps) llm = (outcome_of attempt, after, steps)

-- `_read_news`
unfoldable pub read_news :
    Builtins
    → EvidencePacket
    → (ℕ → Reply (Message NewsInterpretation))
    → AdviserLlm
    → Attempt TracedInterpretation × AdviserLlm × List Step
read_news b packet replies llm =
    ask_model (λ n. of_traced (trace_interpretation b packet n)) replies llm

unfoldable pub interpret_news :
    Builtins
    → EvidencePacket
    → (ℕ → Reply (Message NewsInterpretation))
    → AdviserLlm
    → Answer TracedInterpretation × AdviserLlm × List Step
interpret_news b packet replies llm =
    guarded llm.unavailable_reason (read_news b packet replies llm) llm

-- The objective side of a council: the score, the direction and the gates.
pub record Baseline (F : Type 0) : Type 0 where
  pub score : F
  pub direction : Text
  pub hard_gates : List HardGate

module _ {F : Type 0} where
  -- What is made of the brief of a council.
  unfoldable pub judge_brief :
      Builtins
      → List AnalysisFramework
      → Doubles F
      → EvidencePacket
      → Baseline F
      → CouncilBrief
      → Attempt (CouncilVerdict F)
  judge_brief b frameworks d packet base brief =
      and_then (of_traced (trace_brief b frameworks packet brief))
        (λ t. of_gated (apply_hard_gate d t base.score base.direction base.hard_gates))

  -- `frameworks` is the table in which `_trace_opinion` looks an opinion's framework up; no council
  -- is the `ValueError` of `select_frameworks`.
  abbrev pub with_council :
      Option (List AnalysisFramework)
      → Attempt (CouncilVerdict F) × AdviserLlm × List Step
      → AdviserLlm
      → Attempt (CouncilVerdict F) × AdviserLlm × List Step
  with_council none operation llm = (crashes, llm, [])
  with_council (some seats) operation llm = operation

  -- `_run_council`
  unfoldable pub run_council :
      Builtins
      → List AnalysisFramework
      → Doubles F
      → EvidencePacket
      → Baseline F
      → (ℕ → Reply (Message CouncilBrief))
      → AdviserLlm
      → Attempt (CouncilVerdict F) × AdviserLlm × List Step
  run_council b frameworks d packet base replies llm =
      with_council (select_frameworks packet.horizon llm.config.max_council_seats)
        (ask_model (judge_brief b frameworks d packet base) replies llm) llm

  unfoldable pub convene_council :
      Builtins
      → List AnalysisFramework
      → Doubles F
      → EvidencePacket
      → Baseline F
      → (ℕ → Reply (Message CouncilBrief))
      → AdviserLlm
      → Answer (CouncilVerdict F) × AdviserLlm × List Step
  convene_council b frameworks d packet base replies llm =
      guarded llm.unavailable_reason (run_council b frameworks d packet base replies llm) llm
