-- ===== src/UniverseCache/Flight/Gap.antt =====
-- market_universe_cache.py: between the `finally` of a leader and the storing of its outcome.
use us_stock_helper.Prelude.{
  ℕ, Text, ◌≡◌, refl, sym, subst, true, false, Option, none, some, arith, ◌==◌, if◌then◌else◌,
  get_key, del_key, get_key-del_key,
}
use us_stock_helper.UniverseCache.{
  Instant, Slot, Attempt, MarketUniverseCache, elected, is_fresh, is_marker, enter, enter_with,
  join_or_elect, elect, leave,
}

marker_refl : (m : ℕ) → (m == m) ≡ true
marker_refl m = ground arith

module _ {V : Type 0} where
  enter_miss :
      (name key : Text) (now clock : Instant) (found : Option (Slot V)) (c : MarketUniverseCache V)
      → is_fresh key clock found ≡ false
      → get_key name c.inflight ≡ none
      → (enter_with name key now clock found c).0 ≡ elected c.next_marker
  unfolding enter_with join_or_elect elect
  enter_miss name key now clock none c stale idle = rw idle refl
  enter_miss name key now clock (some s) c stale idle = rw (stale, idle) refl

  leave_frees :
      (name : Text) (a : Attempt) (c : MarketUniverseCache V)
      → get_key name c.inflight ≡ some a
      → get_key name (leave name a.marker c).inflight ≡ none
  unfolding leave
  leave_frees name a c flying =
      subst
        (λ o.
          get_key name (if is_marker a.marker o then del_key name c.inflight else c.inflight)
          ≡ none)
        (sym flying)
        (subst (λ b. get_key name (if b then del_key name c.inflight else c.inflight) ≡ none)
          (sym (marker_refl a.marker)) (get_key-del_key name c.inflight))

  -- Between the end of a computation and the storing of its outcome another caller is elected: when
  -- the attempt in flight is the leader's, and the slot is not fresh for the key, whoever enters
  -- after the leader's `finally` computes again.
  pub gap_elects :
      (name key : Text) (now clock : Instant) (a : Attempt) (c : MarketUniverseCache V)
      → get_key name c.inflight ≡ some a
      → is_fresh key clock (get_key name c.slots) ≡ false
      → (enter name key now clock (leave name a.marker c)).0 ≡ elected c.next_marker
  unfolding enter leave
  gap_elects name key now clock a c flying stale =
      enter_miss name key now clock (get_key name c.slots) (leave name a.marker c) stale
        (leave_frees name a c flying)
