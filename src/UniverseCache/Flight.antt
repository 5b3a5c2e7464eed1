-- ===== src/UniverseCache/Flight.antt =====
-- market_universe_cache.py: who computes. A caller that is elected computes until its `finally` has
-- run, which is when it leaves the list of the leaders.
pub mod Leaders
pub mod Single
pub mod Gap
use us_stock_helper.Prelude.{
  ℕ, zero, suc, ◌+◌, ◌≤◌, ◌<◌, Text, text_eq, text_eq_refl, eq-text_eq, ◌≡◌, refl, ap, sym, ◌∙◌,
  subst, Bool, true, false, not, ◌&&◌, ◌||◌, every, count_where-select_le, Bool-cases, inl, inr,
  ◌⊎◌, Option, none, some, List, [], ◌∷◌, All, arith, tests, ltb, ◌==◌, select, count_where,
  if◌then◌else◌, Dict, get_key, set_key, del_key, get_key-set_key, get_key-set_other,
  get_key-del_key, get_key-del_other,
}
use us_stock_helper.UniverseCache.{
  Instant, Duration, CacheOutcome, Slot, Attempt, MarketUniverseCache, Entered, stored, pending,
  elected, is_fresh, is_marker, new_attempt, still_fresh, enter, enter_with, join_or_elect, elect,
  leave, store,
}

-- A caller that computes.
pub record Leader : Type 0 where
  pub name : Text
  pub marker : ℕ

-- The cache, and the callers that compute.
pub record Flight (V : Type 0) : Type 0 where
  pub cache : MarketUniverseCache V
  pub leaders : List Leader

-- What a thread does: it enters, a computation ends, or its outcome is stored.
pub data FlightStep (V : Type 0) : Type 0 where
  arrive : Text → Text → Instant → Instant → FlightStep V
  compute_ends : Text → ℕ → FlightStep V
  outcome_stored : Text → Text → CacheOutcome V → Instant → FlightStep V

abbrev pub is_leader : Text → ℕ → Leader → Bool
is_leader name m l = text_eq l.name name && l.marker == m

abbrev pub is_of : Text → Leader → Bool
is_of name l = text_eq l.name name

module _ {V : Type 0} where
  unfoldable pub join_leaders : Text → Entered V → List Leader → List Leader
  join_leaders name (elected m) ls = record { name = name; marker = m } ∷ ls
  join_leaders name _ ls = ls

  unfoldable pub apply_flight : FlightStep V → Flight V → Flight V
  apply_flight (arrive name key now clock) f =
      let r = enter name key now clock f.cache in
      record { cache = r.1; leaders = join_leaders name r.0 f.leaders }
  apply_flight (compute_ends name m) f = record {
    cache = leave name m f.cache;
    leaders = select (λ l. not (is_leader name m l)) f.leaders;
  }
  apply_flight (outcome_stored name key outcome clock) f = record f {
    cache = store name key outcome clock f.cache;
  }

  unfoldable pub run_flight : List (FlightStep V) → Flight V → Flight V
  run_flight [] f = f
  run_flight (s ∷ ss) f = run_flight ss (apply_flight s f)

  -- Every caller of the name asks for this key.
  abbrev pub AsksFor : Text → Text → FlightStep V → Type 0
  AsksFor name key (arrive n k now clock) = n ≡ name → k ≡ key
  AsksFor name key _ = Unit
