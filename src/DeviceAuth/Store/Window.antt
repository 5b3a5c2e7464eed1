-- ===== src/DeviceAuth/Store/Window.antt =====
-- The rate limit of `reserve_pairing_attempt` in store.py, against the history of the slots that it
-- has granted.
use us_stock_helper.Prelude.{
  ℕ, ◌+◌, ◌≤◌, Text, text_eq, eq-text_eq, subst, Bool-cases, inl, inr, count_where_mono, ◌≡◌, refl,
  ap, sym, ◌∙◌, Bool, ◌&&◌, none, some, List, [], ◌∷◌, ◌++◌, arith, select, count_where,
  count_where-append, count_where-select, count_where-update_same, length-select, ltb, ◌==◌,
}
use mathlib.Core.List.{append-nil, append_assoc}
use us_stock_helper.DeviceAuth.Store.Rows.{Instant, Duration, AttemptSlot, DeviceStore, empty_store}
use us_stock_helper.DeviceAuth.Store.Codes.{insert_pairing_code, consume_code_and_register_device}
use us_stock_helper.DeviceAuth.Store.Attempts.{
  Reservation, in_window, is_recent, new_attempt, reserve_pairing_attempt, record_attempt_outcome,
}
use us_stock_helper.DeviceAuth.Store.Devices.{touch_device, revoke_device}
use us_stock_helper.DeviceAuth.Store.Calls.{
  StoreCall, insert_code, consume_code, reserve, record_outcome, touch, revoke, apply_call,
  run_calls,
}

-- The rate limit that every reservation of a service applies.
pub record Policy : Type 0 where
  pub limit : ℕ
  pub window : Duration
  pub retain : Duration

-- One granted slot: whose it is, and when it was granted.
pub record Grant : Type 0 where
  pub client : Text
  pub at : Instant

abbrev slot_grant : Reservation → AttemptSlot → List Grant
slot_grant q slot = elim slot.attempt_id [
  | none ↦ []
  | some id ↦ record { client = q.client_id; at = q.now } ∷ []
]

-- The slots that a call grants.
unfoldable pub call_grants : StoreCall → DeviceStore → List Grant
call_grants (reserve q) s = slot_grant q (reserve_pairing_attempt q s).0
call_grants _ s = []

-- The slots that a run grants, in order.
unfoldable pub grants : List StoreCall → DeviceStore → List Grant
grants [] s = []
grants (c ∷ cs) s = call_grants c s ++ grants cs (apply_call c s)

-- The call, if it reserves, applies the policy, and not before `t`.
abbrev pub Obeys : Policy → Instant → StoreCall → Type 0
Obeys p t (reserve q) =
    (t ≤ q.now) × (q.limit ≡ p.limit) × (q.window ≡ p.window) × (q.retain_attempts_for ≡ p.retain)
Obeys p t _ = Unit

abbrev pub time_after : Instant → StoreCall → Instant
time_after t (reserve q) = q.now
time_after t _ = t

-- Every reservation of the run applies the policy, and their times do not fall.
abbrev pub InOrder : Policy → Instant → List StoreCall → Type 0
InOrder p t [] = Unit
InOrder p t (c ∷ cs) = Obeys p t c × InOrder p (time_after t c) cs

abbrev pub end_time : Instant → List StoreCall → Instant
end_time t [] = t
end_time t (c ∷ cs) = end_time (time_after t c) cs

-- The grant is of this client, and within the window that ends at `now`.
abbrev pub grant_in_window : Text → Instant → Duration → Grant → Bool
grant_in_window client now window g = text_eq g.client client && ltb now (g.at + window)

module _ (p : Policy) where
  -- From `t` on the table counts what the history counts, and neither is past the limit.
  record Agrees (past : List Grant) (t : Instant) (s : DeviceStore) : Type 0 where
    counts :
        (client : Text) (now : Instant)
        → t ≤ now
        → count_where (in_window client now p.window) s.pairing_attempts
          ≡ count_where (grant_in_window client now p.window) past
    within :
        (client : Text) (now : Instant)
        → t ≤ now
        → count_where (grant_in_window client now p.window) past ≤ p.limit

module _ (q : Reservation) (s : DeviceStore) (client : Text) (now : Instant)
    (later : q.now ≤ now) where
  abbrev counted : Instant → ℕ
  counted at = count_where (in_window client at q.window) s.pairing_attempts

  abbrev granted : ℕ
  granted =
      count_where (grant_in_window client now q.window)
        (slot_grant q (reserve_pairing_attempt q s).0)

  -- What the deletion drops is outside every window from now on.
  kept-counted :
      (at : Instant)
      → q.now ≤ at
      → q.window ≤ q.retain_attempts_for
      → count_where
          (in_window client at q.window)
          (select (is_recent q.now q.retain_attempts_for) s.pairing_attempts)
        ≡ counted at
  kept-counted at le fits =
      count_where-select (is_recent q.now q.retain_attempts_for) (in_window client at q.window)
        (λ r e. ground arith) s.pairing_attempts

  reserve-counted :
      q.window ≤ q.retain_attempts_for
      → count_where (in_window client now q.window) (reserve_pairing_attempt q s).1.pairing_attempts
        ≡ counted now + granted
  unfolding reserve_pairing_attempt
  reserve-counted fits =
      let kept = select (is_recent q.now q.retain_attempts_for) s.pairing_attempts in
      ground (
        arith,
        kept-counted now later fits,
        count_where-append (in_window client now q.window) kept
            (new_attempt q s.next_attempt_id ∷ []),
      )

  reserve-within_self :
      q.window ≤ q.retain_attempts_for
      → client ≡ q.client_id
      → counted now ≤ q.limit
      → counted now + granted ≤ q.limit
  unfolding reserve_pairing_attempt
  reserve-within_self fits same h =
      let kept = select (is_recent q.now q.retain_attempts_for) s.pairing_attempts in
      ground (
        arith,
        same,
        kept-counted q.now (omega arith) fits,
        length-select (in_window client q.now q.window) kept,
        count_where_mono (in_window client now q.window) (in_window client q.now q.window)
            (λ r e. ground arith) s.pairing_attempts,
      )

  reserve-within :
      q.window ≤ q.retain_attempts_for → counted now ≤ q.limit → counted now + granted ≤ q.limit
  reserve-within fits h = elim (Bool-cases (text_eq q.client_id client)) [
    | inl same ↦ reserve-within_self fits (sym (eq-text_eq q.client_id client same)) h
    | inr other ↦ ground (arith, other, h)
  ]

module _ (p : Policy) (fits : p.window ≤ p.retain) where
  reserve-Agrees :
      (q : Reservation) (s : DeviceStore) (past : List Grant) (t : Instant)
      → Obeys p t (reserve q)
      → Agrees p past t s
      → Agrees p
          (past ++ slot_grant q (reserve_pairing_attempt q s).0)
          q.now
          (reserve_pairing_attempt q s).1
  reserve-Agrees q s past t (after, l, w, r) h =
      let new = slot_grant q (reserve_pairing_attempt q s).0 in
      let own : q.window ≤ q.retain_attempts_for = omega arith in
      record {
        counts = λ client now le.
            rw (count_where-append (grant_in_window client now p.window) past new) (
              subst
                (λ v.
                  count_where (in_window client now v)
                    (reserve_pairing_attempt q s).1.pairing_attempts
                  ≡ count_where (in_window client now v) s.pairing_attempts
                    + count_where (grant_in_window client now v) new)
                w (reserve-counted q s client now le own)
              ∙ ap (λ n. n + count_where (grant_in_window client now p.window) new)
                  (h.counts client now (omega arith)));
        within = λ client now le.
            rw (count_where-append (grant_in_window client now p.window) past new) (
              omega (
                arith,
                h.counts client now (omega arith),
                h.within client now (omega arith),
                subst
                    (λ v.
                      count_where (in_window client now v) s.pairing_attempts ≤ q.limit
                      → count_where (in_window client now v) s.pairing_attempts
                          + count_where (grant_in_window client now v) new
                        ≤ q.limit)
                    w (reserve-within q s client now le own),
              ));
      }

  -- A call that grants nothing leaves the clients and times of the attempts alone.
  no_grant :
      (s u : DeviceStore) (past : List Grant) (t : Instant)
      → ((client : Text) (now : Instant)
          → count_where (in_window client now p.window) u.pairing_attempts
            ≡ count_where (in_window client now p.window) s.pairing_attempts)
      → Agrees p past t s
      → Agrees p (past ++ []) t u
  no_grant s u past t same h = rw append-nil (record {
    counts = λ client now le. same client now ∙ h.counts client now le;
    within = h.within;
  })

  call-Agrees :
      (c : StoreCall) (s : DeviceStore) (past : List Grant) (t : Instant)
      → Obeys p t c
      → Agrees p past t s
      → Agrees p (past ++ call_grants c s) (time_after t c) (apply_call c s)
  unfolding apply_call call_grants
  call-Agrees (reserve q) s past t o h = reserve-Agrees q s past t o h
  call-Agrees (insert_code c) s past t o h =
      no_grant s _ past t (λ client now. unfold insert_pairing_code in ground arith) h
  call-Agrees (consume_code c) s past t o h =
      no_grant s _ past t (λ client now. unfold consume_code_and_register_device in ground arith) h
  call-Agrees (record_outcome id outcome) s past t o h =
      no_grant s _ past t
        (λ client now.
          unfold record_attempt_outcome in
          count_where-update_same (in_window client now p.window) (λ r. r.attempt_id == id)
            (λ r. record r { outcome = outcome }) (λ r. refl) s.pairing_attempts)
        h
  call-Agrees (touch id now) s past t o h =
      no_grant s _ past t (λ client at. unfold touch_device in refl) h
  call-Agrees (revoke id now reason) s past t o h =
      no_grant s _ past t (λ client at. unfold revoke_device in ground arith) h

  run-Agrees :
      (calls : List StoreCall) (s : DeviceStore) (past : List Grant) (t : Instant)
      → InOrder p t calls
      → Agrees p past t s
      → Agrees p (past ++ grants calls s) (end_time t calls) (run_calls calls s)
  unfolding grants run_calls
  run-Agrees [] s past t o h = rw append-nil h
  run-Agrees (c ∷ cs) s past t o h =
      rw (← append_assoc past (call_grants c s) (grants cs (apply_call c s))) (
        run-Agrees cs (apply_call c s) (past ++ call_grants c s) (time_after t c) o.1
          (call-Agrees c s past t o.0 h))

-- Whatever transactions a new store runs, when every reservation applies one policy that keeps
-- attempts for at least a window, and their times do not fall, no client has been granted more
-- slots than the limit in the window that ends at any time from the last reservation on.
pub rate_limit :
    (p : Policy) (calls : List StoreCall) (start now : Instant) (client : Text)
    → p.window ≤ p.retain
    → InOrder p start calls
    → end_time start calls ≤ now
    → count_where (grant_in_window client now p.window) (grants calls empty_store) ≤ p.limit
rate_limit p calls start now client fits o le =
    (run-Agrees p fits calls empty_store [] start o
        (record { counts = λ c t l. refl; within = λ c t l. omega arith })).within
      client now le
