-- ===== src/DeviceAuth/Store/Retry.antt =====
-- The wait that a throttled `reserve_pairing_attempt` reports.
use us_stock_helper.Prelude.{
  ℕ, ◌+◌, ◌*◌, ◌≤◌, ◌<◌, max, ◌≡◌, refl, ap, ◌∙◌, tests, Bool, true, false, none, some, List, [],
  ◌∷◌, inl, inr, arith, All, Any, All-select, Any-map, Option-cases, Bool-cases, length, select,
  count_where, length-select, count_where-select, count_where-select_le, count_where-lt-length, leb,
}
use us_stock_helper.DeviceAuth.Store.Rows.{Instant, Duration, AttemptEntry, DeviceStore}
use us_stock_helper.DeviceAuth.Store.Attempts.{
  Reservation, ceil_seconds, oldest, seconds_until_free, in_window, is_recent,
  reserve_pairing_attempt,
}

oldest-none : (rows : List AttemptEntry) → oldest rows ≡ none → length rows ≡ 0
unfolding oldest
oldest-none [] h = refl
oldest-none (r ∷ rs) h = ground (arith, h)

oldest-Any :
    (rows : List AttemptEntry) (t : Instant)
    → oldest rows ≡ some t
    → Any (λ r. r.attempted_at ≡ t) rows
unfolding oldest
oldest-Any [] t h = cc
oldest-Any (r ∷ rs) t h = elim (Option-cases (oldest rs)) [
  | inl alone ↦ inl (ground (arith, h, alone))
  | inr (u, e) ↦ elim (Bool-cases (leb r.attempted_at u)) [
    | inl first ↦ inl (ground (arith, h, e, first))
    | inr later ↦ inr (oldest-Any rs t (ground (arith, h, e, later)))
  ]
]

oldest-le :
    (rows : List AttemptEntry) (now t : Instant)
    → All (λ r. r.attempted_at ≤ now) rows
    → oldest rows ≡ some t
    → t ≤ now
unfolding oldest
oldest-le [] now t a h = cc
oldest-le (r ∷ rs) now t a h = ground (arith, h, a.0, oldest-le rs now)

-- The wait reaches the end of the window of an attempt that is not in the future.
seconds_until_free-enough :
    (t now : Instant) (window : Duration)
    → t ≤ now
    → t + window ≤ now + seconds_until_free (some t) now window * 1000000
unfolding seconds_until_free
seconds_until_free-enough t now window h = omega arith

-- The wait reported for an attempt is at least one second, and at most the window rounded up to
-- whole seconds or one second, whichever is longer.
pub seconds_until_free_bounds :
    (t : Instant) (now : Instant) (window : Duration)
    → (1 ≤ seconds_until_free (some t) now window)
      × (seconds_until_free (some t) now window ≤ max 1 (ceil_seconds window))
unfolding seconds_until_free
seconds_until_free_bounds t now window = omega arith

module _ (q : Reservation) (s : DeviceStore) where
  abbrev kept : List AttemptEntry
  kept = select (is_recent q.now q.retain_attempts_for) s.pairing_attempts

  abbrev counted : List AttemptEntry
  counted = select (in_window q.client_id q.now q.window) kept

  -- What a reported wait says of the attempts.
  throttled :
      (wait : ℕ)
      → (reserve_pairing_attempt q s).0.retry_after_seconds ≡ some wait
      → (leb q.limit (length counted) ≡ true)
        × (wait ≡ seconds_until_free (oldest counted) q.now q.window)
  unfolding reserve_pairing_attempt
  throttled wait h = ground arith

  throttled_store :
      leb q.limit (length counted) ≡ true
      → (reserve_pairing_attempt q s).1 ≡ record s { pairing_attempts = kept }
  unfolding reserve_pairing_attempt
  throttled_store h = rw h

  free_slot :
      length counted < q.limit → (reserve_pairing_attempt q s).0.attempt_id ≡ some s.next_attempt_id
  unfolding reserve_pairing_attempt
  free_slot h = ground arith

module _ (q r : Reservation) (s : DeviceStore) (same_client : r.client_id ≡ q.client_id)
    (same_window : r.window ≡ q.window) where
  abbrev still : AttemptEntry → Bool
  still = in_window r.client_id r.now r.window

  -- Once the oldest counted attempt has left the window, fewer are counted.
  fewer :
      (t : Instant)
      → oldest (counted q s) ≡ some t
      → q.now ≤ r.now
      → t + q.window ≤ r.now
      → count_where still (kept q s) < length (counted q s)
  fewer t e later gone =
      let leaves : (x : AttemptEntry) → x.attempted_at ≡ t → still x ≡ false =
        λ x h. ground arith in
      let stays : (x : AttemptEntry)
          → still x ≡ true
          → in_window q.client_id q.now q.window x ≡ true =
        λ x h. ground arith in
      omega (
        arith,
        count_where-select (in_window q.client_id q.now q.window) still stays (kept q s),
        count_where-lt-length still (counted q s) (
            Any-map (λ x. x.attempted_at ≡ t) (λ x. still x ≡ false) leaves (counted q s)
              (oldest-Any (counted q s) t e)),
      )

-- A client that was throttled, and tries again under the same limit and window after it has waited
-- at least as long as it was told, gets a slot, if the store was within the limit, the limit is not
-- zero, and no attempt was recorded later than the throttled one.
pub retry_succeeds :
    (q r : Reservation) (s : DeviceStore) (wait : ℕ)
    → (reserve_pairing_attempt q s).0.retry_after_seconds ≡ some wait
    → r.client_id ≡ q.client_id
    → r.limit ≡ q.limit
    → r.window ≡ q.window
    → q.now + wait * 1000000 ≤ r.now
    → 0 < q.limit
    → count_where (in_window q.client_id q.now q.window) s.pairing_attempts ≤ q.limit
    → All (λ x. x.attempted_at ≤ q.now) s.pairing_attempts
    → (reserve_pairing_attempt r (reserve_pairing_attempt q s).1).0.attempt_id
      ≡ some s.next_attempt_id
retry_succeeds q r s wait told same_client same_limit same_window waited some_limit within past =
    let (full, w) = throttled q s wait told in
    elim (Option-cases (oldest (counted q s))) [
      | inl nothing ↦ absurd (omega (tests, full, oldest-none (counted q s) nothing))
      | inr (t, e) ↦
          let some_wait : wait ≡ seconds_until_free (some t) q.now q.window =
            w ∙ ap (λ o. seconds_until_free o q.now q.window) e in
          let not_future : t ≤ q.now =
            oldest-le (counted q s) q.now t
              (All-select _ _ (kept q s) (All-select _ _ s.pairing_attempts past)) e in
          rw (throttled_store q s full) (
            free_slot r (record s { pairing_attempts = kept q s })
              (omega (
                arith,
                some_wait,
                not_future,
                seconds_until_free-enough t q.now q.window not_future,
                fewer q r s same_client same_window t e,
                length-select (still q r s same_client same_window)
                    (select (is_recent r.now r.retain_attempts_for) (kept q s)),
                count_where-select_le (is_recent r.now r.retain_attempts_for)
                    (still q r s same_client same_window) (kept q s),
                length-select (in_window q.client_id q.now q.window) (kept q s),
                count_where-select_le (is_recent q.now q.retain_attempts_for)
                    (in_window q.client_id q.now q.window) s.pairing_attempts,
              )))
    ]
