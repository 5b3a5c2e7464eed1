-- ===== src/DeviceAuth/Service/Redeem.antt =====
-- service.py: what `redeem_pairing_code` answers, and what it leaves behind.
use us_stock_helper.Prelude.{
  ℕ, Text, text_eq_refl, ◌≡◌, refl, ap, subst, ◌∙◌, Bool, true, false, not, Option, none, some,
  arith, inl, inr, ◌⊎◌, leb, if◌then◌else◌,
}
use us_stock_helper.DeviceAuth.Errors.{Result, ok, raised}
use us_stock_helper.DeviceAuth.Store.Rows.{Instant, DeviceStore, PairingCodeRow}
use us_stock_helper.DeviceAuth.Store.Codes.{Claim, is_none, consume_code_and_register_device}
use us_stock_helper.DeviceAuth.Store.Attempts.{
  Reservation, reserve_pairing_attempt, record_attempt_outcome,
}
use us_stock_helper.DeviceAuth.Store.Paired.{IsPaired, outcome-IsPaired, claim-IsPaired}
use us_stock_helper.DeviceAuth.Credentials.Codes.{PyValue, normalize_code}
use us_stock_helper.DeviceAuth.Credentials.Digests.{Digests, token_hash, token_algorithm}
use us_stock_helper.DeviceAuth.Action.{Action, continue, call, ◌>>=◌}
use us_stock_helper.DeviceAuth.Service.Types.{
  DeviceAuthService, PairingOutcome, AttemptOutcome, value, accepted, reused, require_text,
}
use us_stock_helper.DeviceAuth.Service.Device.{
  DeviceDraws, refused_outcome, throttled_outcome, paired_outcome, refuse, match_code, claim_of,
  answer_claim, claim_code, decide_match, try_code, reservation, use_slot, redeem_pairing_code,
}
use us_stock_helper.DeviceAuth.Service.Tokens.{HasSecret}

-- Neither the devices nor the codes have changed.
abbrev pub Unchanged : DeviceStore → DeviceStore → Type 0
Unchanged s t = (t.devices ≡ s.devices) × (t.pairing_codes ≡ s.pairing_codes)

-- What a redemption may end in.
abbrev pub Answers :
    Digests → DeviceDraws → DeviceStore → Result PairingOutcome × DeviceStore → Type 0
Answers d draws s (raised e, t) = Unchanged s t
Answers d draws s (ok o, t) =
    ((o ≡ refused_outcome) × Unchanged s t)
    ⊎ ((wait : Option ℕ) × (o ≡ throttled_outcome wait) × Unchanged s t)
    ⊎ ((o ≡ paired_outcome draws) × HasSecret d draws.device_id draws.secret t)

reserved_devices :
    (q : Reservation) (s : DeviceStore) → (reserve_pairing_attempt q s).1.devices ≡ s.devices
unfolding reserve_pairing_attempt
reserved_devices q s = ground arith

reserved_codes :
    (q : Reservation) (s : DeviceStore)
    → (reserve_pairing_attempt q s).1.pairing_codes ≡ s.pairing_codes
unfolding reserve_pairing_attempt
reserved_codes q s = ground arith

module _ (d : Digests) (draws : DeviceDraws) where
  refuse-Answers :
      (s : DeviceStore) (id : ℕ) (o : AttemptOutcome) → Answers d draws s (refuse id o s)
  unfolding refuse record_attempt_outcome ◌>>=◌
  refuse-Answers s id o = inl (refl, (refl, refl))

  -- A claim that is lost, or that raises, changes nothing.
  claim-lost :
      (s : DeviceStore) (c : Claim)
      → ((consume_code_and_register_device c s).0 ≡ ok true → ⊥)
      → (consume_code_and_register_device c s).1 ≡ s
  unfolding consume_code_and_register_device
  claim-lost s c h = ground (arith, h)

  -- The answer to a claim, by what the claim returned.
  answer-Answers :
      (now : Instant) (id : ℕ) (s t : DeviceStore) (claimed : Bool)
      → (claimed ≡ true → HasSecret d draws.device_id draws.secret t)
      → (claimed ≡ false → t ≡ s)
      → Answers d draws s (answer_claim draws id claimed t)
  unfolding answer_claim ◌>>=◌
  answer-Answers now id s t true won lost =
      let (salt, h) = won refl in
      inr (
        inr (
          refl,
          (
            salt,
            outcome-IsPaired draws.device_id salt (d.hmac_sha256 salt draws.secret) token_algorithm
                id (value accepted) t h,
          ),
        ))
  answer-Answers now id s t false won lost =
      subst (λ u. Answers d draws u (refuse id reused t)) (lost refl) (refuse-Answers t id reused)

  claim-Answers :
      (now : Instant) (id : ℕ) (s : DeviceStore) (c : Claim) (r : Result Bool)
      → c.device_id ≡ draws.device_id
      → c.digest ≡ d.hmac_sha256 c.salt draws.secret
      → c.algorithm ≡ token_algorithm
      → (consume_code_and_register_device c s).0 ≡ r
      → Answers d draws s
          (continue r (answer_claim draws id) (consume_code_and_register_device c s).1)
  claim-Answers now id s c (ok true) same digest by e =
      answer-Answers now id s _ true
        (λ _. (
          c.salt,
          subst
              (λ a.
                IsPaired draws.device_id c.salt (d.hmac_sha256 c.salt draws.secret) a
                  (consume_code_and_register_device c s).1)
              by
              (subst
                (λ h.
                  IsPaired draws.device_id c.salt h c.algorithm
                    (consume_code_and_register_device c s).1)
                digest
                (subst
                  (λ i.
                    IsPaired i c.salt c.digest c.algorithm (consume_code_and_register_device c s).1)
                  same (claim-IsPaired c s e))),
        ))
        (λ f. cc f)
  claim-Answers now id s c (ok false) same digest by e =
      answer-Answers now id s _ false (λ f. cc f) (λ _. claim-lost s c (λ w. cc (e, w)))
  claim-Answers now id s c (raised x) same digest by e =
      let stays = claim-lost s c (λ w. cc (e, w)) in
      (ap (λ u. u.devices) stays, ap (λ u. u.pairing_codes) stays)

  claim_code-Answers :
      (now : Instant) (id : ℕ) (matched : PairingCodeRow) (s : DeviceStore)
      → Answers d draws s (claim_code d draws now id matched s)
  unfolding claim_code token_hash ◌>>=◌
  claim_code-Answers now id matched s = rw (text_eq_refl token_algorithm) (
      claim-Answers now id s (claim_of draws now matched (d.hmac_sha256 draws.salt draws.secret)) _
        refl refl refl refl)

  if-Answers :
      (s : DeviceStore) (b : Bool) (m n : Action PairingOutcome)
      → Answers d draws s (m s)
      → Answers d draws s (n s)
      → Answers d draws s ((if b then m else n) s)
  if-Answers s true m n hm hn = hm
  if-Answers s false m n hm hn = hn

  decide_match-Answers :
      (now : Instant) (id : ℕ) (matched : Option PairingCodeRow) (s : DeviceStore)
      → Answers d draws s (decide_match d draws now id matched s)
  unfolding decide_match
  decide_match-Answers now id none s = refuse-Answers s id _
  decide_match-Answers now id (some row) s =
      if-Answers s (not (is_none row.consumed_at)) _ _ (refuse-Answers s id _) (
        if-Answers s (leb row.expires_at now) _ _ (refuse-Answers s id _)
          (claim_code-Answers now id row s))

  matched-Answers :
      (now : Instant) (id : ℕ) (r : Result (Option PairingCodeRow)) (s : DeviceStore)
      → Answers d draws s (continue r (decide_match d draws now id) s)
  matched-Answers now id (ok matched) s = decide_match-Answers now id matched s
  matched-Answers now id (raised e) s = (refl, refl)

  try_code-Answers :
      (svc : DeviceAuthService) (now : Instant) (id : ℕ) (normalized : Option Text)
      (s : DeviceStore)
      → Answers d draws s (try_code svc d draws now id normalized s)
  unfolding try_code match_code ◌>>=◌
  try_code-Answers svc now id none s = refuse-Answers s id _
  try_code-Answers svc now id (some normalized) s = matched-Answers now id _ s

  use_slot-Answers :
      (svc : DeviceAuthService) (now : Instant) (code : PyValue) (id wait : Option ℕ)
      (s : DeviceStore)
      → Answers d draws s
          (use_slot svc d draws now code (record { attempt_id = id; retry_after_seconds = wait }) s)
  unfolding use_slot ◌>>=◌
  use_slot-Answers svc now code none wait s = inr (inl (wait, refl, (refl, refl)))
  use_slot-Answers svc now code (some id) wait s =
      try_code-Answers svc now id (normalize_code code) s

  -- The reservation of a slot touches neither devices nor codes.
  after_reserve :
      (q : Reservation) (s : DeviceStore) (r : Result PairingOutcome × DeviceStore)
      → Answers d draws (reserve_pairing_attempt q s).1 r
      → Answers d draws s r
  after_reserve q s (raised e, t) (p, c) = (p ∙ reserved_devices q s, c ∙ reserved_codes q s)
  after_reserve q s (ok o, t) (inl (e, (p, c))) =
      inl (e, (p ∙ reserved_devices q s, c ∙ reserved_codes q s))
  after_reserve q s (ok o, t) (inr (inl (w, e, (p, c)))) =
      inr (inl (w, e, (p ∙ reserved_devices q s, c ∙ reserved_codes q s)))
  after_reserve q s (ok o, t) (inr (inr h)) = inr (inr h)

  redeem_client :
      (svc : DeviceAuthService) (now : Instant) (code : PyValue) (r : Result Text) (s : DeviceStore)
      → Answers d draws s (
          continue r
            (λ client.
              call (reserve_pairing_attempt (reservation svc client now))
              >>= use_slot svc d draws now code)
            s)
  unfolding ◌>>=◌
  redeem_client svc now code (raised e) s = (refl, refl)
  redeem_client svc now code (ok client) s =
      let q = reservation svc client now in
      let slot = (reserve_pairing_attempt q s).0 in
      after_reserve q s (use_slot svc d draws now code slot (reserve_pairing_attempt q s).1) (
        use_slot-Answers svc now code slot.attempt_id slot.retry_after_seconds
          (reserve_pairing_attempt q s).1)

-- A redemption ends in one of four ways. It raises, or is refused, always by the same answer, or is
-- throttled: then neither the devices nor the codes have changed. Or it answers with the drawn
-- device id and the token of the drawn secret: then the store holds that device, not revoked, with
-- the digest of that secret.
pub redeem-Answers :
    (svc : DeviceAuthService) (d : Digests) (draws : DeviceDraws) (now : Instant)
    (code client : PyValue) (s : DeviceStore)
    → Answers d draws s (redeem_pairing_code svc d draws now code client s)
unfolding redeem_pairing_code ◌>>=◌
redeem-Answers svc d draws now code client s =
    redeem_client d draws svc now code (require_text client 100) s
