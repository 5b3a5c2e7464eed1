-- ===== src/Adviser/Client/Retry.antt =====
-- client.py, `call_with_retry`: how it ends, after how many calls, and with which waits.
use us_stock_helper.Prelude.{
  ℕ, zero, suc, ◌+◌, ◌-◌, ◌*◌, ◌^◌, ◌≤◌, ◌<◌, ◌≡◌, refl, ap, ◌∙◌, arith, Bool-cases, lt→ltb, ltb→lt,
  true, false, List, [], ◌∷◌, ltb, inl, inr, ◌⊎◌,
}
use us_stock_helper.Adviser.Client.{
  AdviserLlmConfig, is_accepted_config, backoff_of, Reply, Called, Step, called, slept, settle,
  is_retryable, after_reply, retry_from, call_with_retry,
}

-- `retries` calls with the waits after them, doubled each time, and the call that ends it.
unfoldable pub schedule : ℕ → ℕ → ℕ → List Step
schedule backoff attempts zero = called ∷ []
schedule backoff attempts (suc retries) =
    called ∷ slept (backoff * 2 ^ attempts) ∷ schedule backoff (suc attempts) retries

-- A configuration that is accepted makes at least one attempt.
some_attempt : (c : AdviserLlmConfig) → is_accepted_config c ≡ true → 0 < c.max_attempts
unfolding is_accepted_config
some_attempt c h = ground arith

pred_suc : (n : ℕ) → suc n - 1 ≡ n
pred_suc n = omega arith

module _ {A : Type 0} where
  -- The next `retries` replies are to be tried again.
  abbrev pub RetriedFrom : (ℕ → Reply A) → ℕ → ℕ → Type 0
  RetriedFrom replies attempts zero = Unit
  RetriedFrom replies attempts (suc retries) =
      (is_retryable (replies (suc attempts)) ≡ true) × RetriedFrom replies (suc attempts) retries

  -- After some retries the last call is made, within the maximum; its reply is one that ends the
  -- loop, or no further attempt is allowed.
  abbrev pub EndsFrom : ℕ → ℕ → (ℕ → Reply A) → ℕ → Called A × List Step → Type 0
  EndsFrom maximum backoff replies attempts r =
      (retries : ℕ) × (last : ℕ) × (last ≡ suc (attempts + retries))
      × (last ≤ maximum)
      × RetriedFrom replies attempts retries
      × (r.1 ≡ schedule backoff attempts retries)
      × (r.0 ≡ settle last (replies last))
      × ((is_retryable (replies last) ≡ false) ⊎ (last ≡ maximum))

  after_reply-EndsFrom :
      (maximum backoff : ℕ) (replies : ℕ → Reply A) (attempts : ℕ) (next : Called A × List Step)
      → attempts < maximum
      → (suc attempts < maximum → EndsFrom maximum backoff replies (suc attempts) next)
      → EndsFrom maximum backoff replies attempts
          (after_reply maximum backoff (suc attempts) (replies (suc attempts)) next)
  unfolding after_reply schedule
  after_reply-EndsFrom maximum backoff replies attempts next below goes_on =
      elim (Bool-cases (is_retryable (replies (suc attempts)))) [
        | inr final ↦
            rw final
              (zero, suc attempts, omega arith, omega (arith, below), tt, refl, refl, inl final)
        | inl again ↦ elim (Bool-cases (ltb (suc attempts) maximum)) [
          | inl more ↦
              let (retries, last, at, within, retried, log, result, ends) =
                goes_on (ltb→lt _ _ more) in
              rw (again, more)
                (
                  suc retries,
                  last,
                  at ∙ omega arith,
                  within,
                  (again, retried),
                  ap (λ l. called ∷ slept (backoff * 2 ^ (suc attempts - 1)) ∷ l) log
                      ∙ ap
                          (λ e.
                            called
                            ∷ slept (backoff * 2 ^ e)
                            ∷ schedule backoff (suc attempts) retries)
                          (pred_suc attempts),
                  result,
                  ends,
                )
          | inr none_left ↦
              rw (again, none_left)
                (
                  zero,
                  suc attempts,
                  omega arith,
                  omega (arith, below),
                  tt,
                  refl,
                  refl,
                  inr (ground (arith, none_left, below)),
                )
        ]
      ]

  retry_from-EndsFrom :
      (fuel maximum backoff : ℕ) (replies : ℕ → Reply A) (attempts : ℕ)
      → attempts < maximum
      → maximum ≤ fuel + attempts
      → EndsFrom maximum backoff replies attempts (retry_from fuel maximum backoff replies attempts)
  unfolding retry_from
  retry_from-EndsFrom zero maximum backoff replies attempts below enough =
      absurd (omega (arith, below, enough))
  retry_from-EndsFrom (suc fuel) maximum backoff replies attempts below enough =
      rw (lt→ltb attempts maximum below) (
        after_reply-EndsFrom maximum backoff replies attempts
          (retry_from fuel maximum backoff replies (suc attempts)) below
          (λ more.
            retry_from-EndsFrom fuel maximum backoff replies (suc attempts) more
              (omega (arith, enough))))

  -- With any accepted configuration the call ends: it makes a first attempt and at most the maximum,
  -- each one but the last followed by a wait that doubles every time, and tries again only after a
  -- reply that allows it. The last reply decides the result: it is one that is not tried again, or
  -- the attempts have reached the maximum.
  pub call_with_retry-Ends :
      (c : AdviserLlmConfig) (replies : ℕ → Reply A)
      → is_accepted_config c ≡ true
      → EndsFrom c.max_attempts (backoff_of c) replies 0 (call_with_retry c replies)
  unfolding call_with_retry
  call_with_retry-Ends c replies h =
      retry_from-EndsFrom (suc c.max_attempts) c.max_attempts (backoff_of c) replies 0
        (some_attempt c h) (omega arith)
