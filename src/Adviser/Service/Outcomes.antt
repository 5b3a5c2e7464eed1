-- ===== src/Adviser/Service/Outcomes.antt =====
-- service.py: whatever result the service returns has been traced, and a verdict has been gated.
use us_stock_helper.Prelude.{ℕ, ◌≡◌, refl, Option, none, some, List}
use us_stock_helper.Prelude.Checked as Check
use us_stock_helper.Adviser.Tokens.{Builtins}
use us_stock_helper.Adviser.Evidence.{EvidencePacket}
use us_stock_helper.Adviser.Trace.{
  NewsInterpretation, TracedInterpretation, Traced, ok, refused, trace_interpretation,
}
use us_stock_helper.Adviser.Shown.{IsShownInterpretation, trace_interpretation-IsShown}
use us_stock_helper.Adviser.Client.{
  Reply, Called, value, exhausted, not_retryable, invalid_output, raised, unfinished, Step,
  call_with_retry,
}
use us_stock_helper.Prelude.Doubles.{Doubles}
use us_stock_helper.Adviser.Service.{
  Reason, Answer, answered, crashed, unending, Attempt, done, unavailable, crashes, never_ends,
  Message, AdviserLlm, require_parsed, of_traced, and_then, use_call, ask_model, outcome_of,
  guarded, read_news, interpret_news,
}

-- The result that is returned, if there is one.
abbrev pub result_of : {A : Type 0} → Answer A → Option A
result_of (answered o) = o.value
result_of crashed = none
result_of unending = none

module _ {A B : Type 0} where
  and_then_done :
      (a : Attempt A) (f : A → Attempt B) (b : B)
      → and_then a f ≡ done b
      → (x : A) × (a ≡ done x) × (f x ≡ done b)
  and_then_done (done x) f b h = (x, refl, h)
  and_then_done (unavailable r) f b h = cc
  and_then_done crashes f b h = cc
  and_then_done never_ends f b h = cc

  use_call_done :
      (read : A → Attempt B) (llm : AdviserLlm) (c : Called (Message A)) (b : B)
      → (use_call read llm c).0 ≡ done b
      → (a : A) × (read a ≡ done b)
  unfolding use_call
  use_call_done read llm (value m) b h =
      let (a, parsed, e) = and_then_done (require_parsed m) read b h in (a, e)
  use_call_done read llm (exhausted n) b h = cc
  use_call_done read llm (not_retryable n) b h = cc
  use_call_done read llm invalid_output b h = cc
  use_call_done read llm raised b h = cc
  use_call_done read llm unfinished b h = cc

  ask_model_done :
      (read : A → Attempt B) (replies : ℕ → Reply (Message A)) (llm : AdviserLlm) (b : B)
      → (ask_model read replies llm).0 ≡ done b
      → (a : A) × (read a ≡ done b)
  unfolding ask_model
  ask_model_done read replies llm b h =
      use_call_done read llm (call_with_retry llm.config replies).0 b h

module _ {B : Type 0} where
  outcome_done : (a : Attempt B) (b : B) → result_of (outcome_of a) ≡ some b → a ≡ done b
  outcome_done (done x) b h = cc
  outcome_done (unavailable r) b h = cc
  outcome_done crashes b h = cc
  outcome_done never_ends b h = cc

  guarded_done :
      (reason : Option Reason) (operation : Attempt B × AdviserLlm × List Step) (llm : AdviserLlm)
      (b : B)
      → result_of (guarded reason operation llm).0 ≡ some b
      → operation.0 ≡ done b
  unfolding guarded
  guarded_done (some r) operation llm b h = cc
  guarded_done none operation llm b h = outcome_done operation.0 b h

  of_traced_done : (t : Traced B) (b : B) → of_traced t ≡ done b → t ≡ ok b
  of_traced_done (ok x) b h = cc
  of_traced_done (refused e) b h = cc

-- Whatever interpretation of the news is returned, after however many attempts, is grounded in the
-- packet and sourced from it.
pub interpret_news-IsShown :
    (b : Builtins) (packet : EvidencePacket) (replies : ℕ → Reply (Message NewsInterpretation))
    (llm : AdviserLlm) (t : TracedInterpretation)
    → result_of (interpret_news b packet replies llm).0 ≡ some t
    → IsShownInterpretation b packet t
unfolding interpret_news read_news
interpret_news-IsShown b packet replies llm t h =
    let done_t = guarded_done llm.unavailable_reason (read_news b packet replies llm) llm t h in
    let (n, read) =
      ask_model_done (λ n. of_traced (trace_interpretation b packet n)) replies llm t done_t in
    trace_interpretation-IsShown b packet n t (of_traced_done _ t read)
