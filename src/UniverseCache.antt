-- ===== src/UniverseCache.antt =====
-- services/analysis_api/src/us_stock_helper_analysis_api/market_universe_cache.py: named slots, each
-- with the value of its last computation. `get_or_compute` is three sections under the lock, with
-- `compute` between the first and the second. Keys are texts; times of the clock and of `monotonic`
-- are numbers of microseconds.
pub mod Freshness
pub mod Flight
mod Examples
use us_stock_helper.Prelude.{
  ℕ, ◌+◌, Text, text_eq, Bool, true, false, ◌&&◌, Option, none, some, ltb, ◌==◌, if◌then◌else◌,
  Dict, get_key, set_key, del_key,
}

abbrev pub Instant : Type 0
Instant = ℕ

abbrev pub Duration : Type 0
Duration = ℕ

module _ (V : Type 0) where
  pub record CacheOutcome : Type 0 where
    pub value : V
    pub healthy : Bool

  pub record Slot : Type 0 where
    pub key : Text
    pub value : V
    pub retry_at : Option Instant

-- An attempt, and the number that stands for its identity as an object.
pub record Attempt : Type 0 where
  pub key : Text
  pub started_at : Instant
  pub marker : ℕ

pub record MarketUniverseCache (V : Type 0) : Type 0 where
  pub retry_after : Duration
  pub slots : Dict (Slot V)
  pub inflight : Dict Attempt
  pub next_marker : ℕ

-- What the first section decides: the stored value, an attempt that is under way, or that this caller leads.
pub data Entered (V : Type 0) : Type 0 where
  stored : V → Entered V
  pending : Instant → Entered V
  elected : ℕ → Entered V

abbrev pub is_before : Instant → Option Instant → Bool
is_before clock none = true
is_before clock (some deadline) = ltb clock deadline

abbrev pub new_attempt : Text → Instant → ℕ → Attempt
new_attempt key now marker = record { key = key; started_at = now; marker = marker }

-- `self._inflight.get(name) is marker`
abbrev pub is_marker : ℕ → Option Attempt → Bool
is_marker m none = false
is_marker m (some attempt) = attempt.marker == m

abbrev pub retry_at_of : Bool → Instant → Duration → Option Instant
retry_at_of true clock retry = none
retry_at_of false clock retry = some (clock + retry)

module _ {V : Type 0} where
  -- `_still_fresh`
  abbrev pub still_fresh : Instant → Slot V → Bool
  still_fresh clock slot = is_before clock slot.retry_at

  -- `slot is not None and slot.key == key and self._still_fresh(slot)`
  abbrev pub is_fresh : Text → Instant → Option (Slot V) → Bool
  is_fresh key clock none = false
  is_fresh key clock (some slot) = text_eq slot.key key && still_fresh clock slot

  -- Election: the attempt is put in flight, over one with another key.
  unfoldable pub elect :
      Text → Text → Instant → MarketUniverseCache V → Entered V × MarketUniverseCache V
  elect name key now c = (
    elected c.next_marker,
    record c {
      inflight = set_key name (new_attempt key now c.next_marker) c.inflight;
      next_marker = c.next_marker + 1;
    },
  )

  unfoldable pub join_or_elect :
      Text
      → Text
      → Instant
      → Option Attempt
      → MarketUniverseCache V
      → Entered V × MarketUniverseCache V
  join_or_elect name key now none c = elect name key now c
  join_or_elect name key now (some attempt) c =
      if text_eq attempt.key key then (pending attempt.started_at, c) else elect name key now c

  unfoldable pub enter_with :
      Text
      → Text
      → Instant
      → Instant
      → Option (Slot V)
      → MarketUniverseCache V
      → Entered V × MarketUniverseCache V
  enter_with name key now clock none c = join_or_elect name key now (get_key name c.inflight) c
  enter_with name key now clock (some slot) c =
      let otherwise = join_or_elect name key now (get_key name c.inflight) c in
      if text_eq slot.key key && still_fresh clock slot then (stored slot.value, c) else otherwise

  -- The first section under the lock.
  unfoldable pub enter :
      Text → Text → Instant → Instant → MarketUniverseCache V → Entered V × MarketUniverseCache V
  enter name key now clock c = enter_with name key now clock (get_key name c.slots) c

  -- The `finally`, which runs also when `compute` raises.
  unfoldable pub leave : Text → ℕ → MarketUniverseCache V → MarketUniverseCache V
  leave name m c = record c {
    inflight =
        if is_marker m (get_key name c.inflight) then del_key name c.inflight else c.inflight;
  }

  abbrev pub new_slot : Text → CacheOutcome V → Instant → Duration → Slot V
  new_slot key outcome clock retry = record {
    key = key;
    value = outcome.value;
    retry_at = retry_at_of outcome.healthy clock retry;
  }

  -- The last section under the lock.
  unfoldable pub store :
      Text → Text → CacheOutcome V → Instant → MarketUniverseCache V → MarketUniverseCache V
  store name key outcome clock c = record c {
    slots = set_key name (new_slot key outcome clock c.retry_after) c.slots;
  }

  -- What the leader does once `compute` has returned, or raised, `none`.
  unfoldable pub finish :
      Text
      → Text
      → ℕ
      → Option (CacheOutcome V)
      → Instant
      → MarketUniverseCache V
      → Option (V × Bool) × MarketUniverseCache V
  finish name key m none clock c = (none, leave name m c)
  finish name key m (some outcome) clock c =
      (some (outcome.value, false), store name key outcome clock (leave name m c))

  unfoldable pub after_enter :
      Text
      → Text
      → Option (CacheOutcome V)
      → (Instant → V)
      → Instant
      → Entered V × MarketUniverseCache V
      → Option (V × Bool) × MarketUniverseCache V
  after_enter name key compute pending_value clock (stored v, c) = (some (v, true), c)
  after_enter name key compute pending_value clock (pending t, c) =
      (some (pending_value t, true), c)
  after_enter name key compute pending_value clock (elected m, c) =
      finish name key m compute clock c

  -- `get_or_compute` without another thread, with the two readings of `monotonic`.
  unfoldable pub get_or_compute :
      Text
      → Text
      → Instant
      → Option (CacheOutcome V)
      → (Instant → V)
      → Instant
      → Instant
      → MarketUniverseCache V
      → Option (V × Bool) × MarketUniverseCache V
  get_or_compute name key now compute pending_value clock later c =
      after_enter name key compute pending_value later (enter name key now clock c)
