-- ===== src/Adviser/Service/Degrades.antt =====
-- service.py: a call of the service ends, within the attempts it may make.
use us_stock_helper.Prelude.{
  ℕ, zero, suc, ◌≤◌, ◌≡◌, refl, sym, subst, arith, Bool-cases, Bool, true, false, Option, none,
  some, count_where, inl, inr, ◌⊎◌,
}
use us_stock_helper.Adviser.Tokens.{Builtins}
use us_stock_helper.Adviser.Evidence.{EvidencePacket}
use us_stock_helper.Adviser.Trace.{
  NewsInterpretation, TracedInterpretation, Traced, ok, refused, trace_interpretation,
}
use us_stock_helper.Adviser.Client.{
  is_accepted_config, backoff_of, Reply, returned, retryable, malformed, broken, Step, called,
  slept, settle,
}
use us_stock_helper.Adviser.Client.Retry.{schedule, call_with_retry-Ends}
use us_stock_helper.Adviser.Service.{
  Reason, AdviserOutcome, is_accepted_outcome, Answer, answered, crashed, Attempt, done,
  unavailable, crashes, never_ends, Message, AdviserLlm, output_of, require_parsed, of_traced,
  and_then, use_call, ask_model, outcome_of, guarded, read_news, interpret_news,
}

abbrev pub is_call : Step → Bool
is_call called = true
is_call (slept n) = false

schedule-calls :
    (backoff attempts retries : ℕ)
    → count_where is_call (schedule backoff attempts retries) ≡ suc retries
unfolding schedule
schedule-calls backoff attempts zero = refl
schedule-calls backoff attempts (suc retries) =
    omega (arith, schedule-calls backoff (suc attempts) retries)

-- A result or a reason, and not both.
abbrev pub IsAnswered : {A : Type 0} → Answer A → Type 0
IsAnswered {A} a =
    (o : AdviserOutcome A) × (a ≡ answered o)
    × (is_accepted_outcome o.value o.unavailable_reason ≡ true)

-- The operation has a result or a reason, or it raised because a call did.
abbrev HasEnded : {A B : Type 0} → (ℕ → Reply A) → Attempt B → Type 0
HasEnded replies (done b) = Unit
HasEnded replies (unavailable r) = Unit
HasEnded replies crashes = (k : ℕ) × (replies k ≡ broken)
HasEnded replies never_ends = ⊥

module _ {A : Type 0} where
  output-HasEnded :
      (replies : ℕ → Reply (Message A)) (o : Option A) → HasEnded replies (output_of o)
  output-HasEnded replies none = tt
  output-HasEnded replies (some a) = tt

  message-HasEnded :
      (replies : ℕ → Reply (Message A)) (m : Message A) → HasEnded replies (require_parsed m)
  unfolding require_parsed
  message-HasEnded replies m = elim (Bool-cases m.is_refusal) [
    | inl refusal ↦ rw refusal tt
    | inr answer ↦ rw answer (output-HasEnded replies m.parsed_output)
  ]

module _ {A B : Type 0} where
  -- Reading a message does not raise.
  abbrev pub IsReading : (A → Attempt B) → Type 0
  IsReading read =
      (a : A) → ((b : B) × (read a ≡ done b)) ⊎ ((r : Reason) × (read a ≡ unavailable r))

  read-HasEnded :
      (replies : ℕ → Reply (Message A)) (read : A → Attempt B)
      → IsReading read
      → (o : Attempt A) → HasEnded replies o
      → HasEnded replies (and_then o read)
  read-HasEnded replies read total (done a) h = elim (total a) [
    | inl (b, e) ↦ rw e tt
    | inr (r, e) ↦ rw e tt
  ]
  read-HasEnded replies read total (unavailable r) h = tt
  read-HasEnded replies read total crashes h = h
  read-HasEnded replies read total never_ends h = h

  use_call-HasEnded :
      (replies : ℕ → Reply (Message A)) (read : A → Attempt B) (llm : AdviserLlm) (last k : ℕ)
      (reply : Reply (Message A))
      → IsReading read
      → replies k ≡ reply
      → HasEnded replies (use_call read llm (settle last reply)).0
  unfolding use_call
  use_call-HasEnded replies read llm last k (returned m) total e =
      read-HasEnded replies read total (require_parsed m) (message-HasEnded replies m)
  use_call-HasEnded replies read llm last k retryable total e = tt
  use_call-HasEnded replies read llm last k Reply.refused total e = tt
  use_call-HasEnded replies read llm last k malformed total e = tt
  use_call-HasEnded replies read llm last k broken total e = (k, e)

  ask_model-HasEnded :
      (replies : ℕ → Reply (Message A)) (read : A → Attempt B) (llm : AdviserLlm)
      → is_accepted_config llm.config ≡ true
      → IsReading read
      → HasEnded replies (ask_model read replies llm).0
        × (count_where is_call (ask_model read replies llm).2 ≤ llm.config.max_attempts)
  unfolding ask_model
  ask_model-HasEnded replies read llm ok_config total =
      let (retries, last, at, within, retried, log, result, ends) =
        call_with_retry-Ends llm.config replies ok_config in
      (
        subst (λ c. HasEnded replies (use_call read llm c).0) (sym result)
            (use_call-HasEnded replies read llm last last (replies last) total refl),
        subst (λ l. count_where is_call l ≤ llm.config.max_attempts) (sym log)
            (omega (arith, schedule-calls (backoff_of llm.config) 0 retries, at, within)),
      )

  outcome-ends :
      (replies : ℕ → Reply (Message A)) (a : Attempt B)
      → HasEnded replies a
      → IsAnswered (outcome_of a) ⊎ ((outcome_of a ≡ crashed) × ((k : ℕ) × (replies k ≡ broken)))
  outcome-ends replies (done b) h = inl (_, refl, refl)
  outcome-ends replies (unavailable r) h = inl (_, refl, refl)
  outcome-ends replies crashes h = inr (refl, h)
  outcome-ends replies never_ends h = absurd h

traced-IsReading :
    (b : Builtins) (packet : EvidencePacket)
    → IsReading (λ n. of_traced (trace_interpretation b packet n))
traced-IsReading b packet n = of (trace_interpretation b packet n)
  where
    of :
        (t : Traced TracedInterpretation)
        → ((u : TracedInterpretation) × (of_traced t ≡ done u))
          ⊎ ((r : Reason) × (of_traced t ≡ unavailable r))
    of (ok u) = inl (u, refl)
    of (refused e) = inr (_, refl)

-- With an accepted configuration a reading of the news ends. It calls the model no more often than
-- the configuration allows, and it returns a result or a reason, and not both; it raises only when a
-- call raised an error that the client does not know.
pub interpret_news-Ends :
    (b : Builtins) (packet : EvidencePacket) (replies : ℕ → Reply (Message NewsInterpretation))
    (llm : AdviserLlm)
    → is_accepted_config llm.config ≡ true
    → let r = interpret_news b packet replies llm in
      (count_where is_call r.2 ≤ llm.config.max_attempts)
      × (IsAnswered r.0 ⊎ ((r.0 ≡ crashed) × ((k : ℕ) × (replies k ≡ broken))))
unfolding interpret_news read_news guarded ask_model
interpret_news-Ends b packet replies llm ok_config = by_reason llm.unavailable_reason
  where
    by_reason :
        (reason : Option Reason)
        → let r = guarded reason (read_news b packet replies llm) llm in
          (count_where is_call r.2 ≤ llm.config.max_attempts)
          × (IsAnswered r.0 ⊎ ((r.0 ≡ crashed) × ((k : ℕ) × (replies k ≡ broken))))
    by_reason (some r) = (omega arith, inl (_, refl, refl))
    by_reason none =
        let (ended, calls) =
          ask_model-HasEnded replies _ llm ok_config (traced-IsReading b packet) in
        (calls, outcome-ends replies _ ended)
