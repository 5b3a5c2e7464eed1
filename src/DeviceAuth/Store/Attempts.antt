-- ===== src/DeviceAuth/Store/Attempts.antt =====
-- store.py, "rate limiting": the sliding window of pairing attempts.
use us_stock_helper.Prelude.{
  ℕ, ◌+◌, ◌-◌, ◌/◌, min, max, Text, text_eq, Bool, not, ◌&&◌, ◌||◌, Option, none, some, List, [],
  ◌∷◌, ◌++◌, map, ltb, leb, ◌==◌, if◌then◌else◌, select, length, take, update_where,
}
use us_stock_helper.DeviceAuth.Store.Rows.{
  Instant, Duration, AttemptEntry, AttemptSlot, DeviceStore,
}

-- `math.ceil` of a number of microseconds, in seconds
abbrev pub ceil_seconds : Duration → ℕ
ceil_seconds d = (d + 999999) / 1000000

-- `min(attempted_at)`: NULL over no rows
unfoldable pub oldest : List AttemptEntry → Option Instant
oldest [] = none
oldest (r ∷ rs) = elim (oldest rs) [
  | none ↦ some r.attempted_at
  | some t ↦ some (min r.attempted_at t)
]

-- A wait in the past is 0 here and negative in the source; both are reported as 1.
unfoldable pub seconds_until_free : Option Instant → Instant → Duration → ℕ
seconds_until_free none now window = ceil_seconds window
seconds_until_free (some t) now window =
    max 1 (min (ceil_seconds window) (ceil_seconds (t + window - now)))

-- `client_id = ? AND attempted_at > now - window`
abbrev pub in_window : Text → Instant → Duration → AttemptEntry → Bool
in_window client now window r = text_eq r.client_id client && ltb now (r.attempted_at + window)

-- not `attempted_at < now - retain`
abbrev pub is_recent : Instant → Duration → AttemptEntry → Bool
is_recent now retain r = not (ltb (r.attempted_at + retain) now)

-- The keyword arguments of `reserve_pairing_attempt`.
pub record Reservation : Type 0 where
  pub client_id : Text
  pub now : Instant
  pub limit : ℕ
  pub window : Duration
  pub retain_attempts_for : Duration
  pub pending_outcome : Text

unfoldable pub new_attempt : Reservation → ℕ → AttemptEntry
new_attempt q id = record {
  attempt_id = id;
  client_id = q.client_id;
  attempted_at = q.now;
  outcome = q.pending_outcome;
}

-- A throttled attempt leaves no row, and commits the deletion of the old ones.
unfoldable pub reserve_pairing_attempt : Reservation → DeviceStore → AttemptSlot × DeviceStore
unfolding new_attempt
reserve_pairing_attempt q s =
    let kept = select (is_recent q.now q.retain_attempts_for) s.pairing_attempts in
    let counted = select (in_window q.client_id q.now q.window) kept in
    if leb q.limit (length counted)
    then (
      record {
        attempt_id = none;
        retry_after_seconds = some (seconds_until_free (oldest counted) q.now q.window);
      },
      record s { pairing_attempts = kept },
    )
    else (
      record { attempt_id = some s.next_attempt_id; retry_after_seconds = none },
      record s {
        pairing_attempts = kept ++ new_attempt q s.next_attempt_id ∷ [];
        next_attempt_id = s.next_attempt_id + 1;
      },
    )

unfoldable pub record_attempt_outcome : ℕ → Text → DeviceStore → DeviceStore
record_attempt_outcome id outcome s = record s {
  pairing_attempts =
      update_where (λ r. r.attempt_id == id) (λ r. record r { outcome = outcome })
        s.pairing_attempts;
}

-- `ORDER BY attempted_at DESC, attempt_id DESC`
unfoldable pub insert_newest : AttemptEntry → List AttemptEntry → List AttemptEntry
insert_newest r [] = r ∷ []
insert_newest r (x ∷ xs) =
    if ltb r.attempted_at x.attempted_at
      || (r.attempted_at == x.attempted_at && ltb r.attempt_id x.attempt_id)
    then x ∷ insert_newest r xs
    else r ∷ x ∷ xs

unfoldable pub newest_first : List AttemptEntry → List AttemptEntry
newest_first [] = []
newest_first (x ∷ xs) = insert_newest x (newest_first xs)

abbrev pub of_client : Option Text → AttemptEntry → Bool
of_client none r = Bool.true
of_client (some c) r = text_eq r.client_id c

unfoldable pub recent_attempts : Option Text → ℕ → DeviceStore → List (Text × Instant × Text)
recent_attempts client limit s =
    map (λ r. (r.client_id, r.attempted_at, r.outcome))
      (take limit (newest_first (select (of_client client) s.pairing_attempts)))
