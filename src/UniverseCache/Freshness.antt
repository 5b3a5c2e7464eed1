-- ===== src/UniverseCache/Freshness.antt =====
-- market_universe_cache.py: which values the cache replays, and for how long.
use us_stock_helper.Prelude.{
  sym, ℕ, Text, text_eq, text_eq_refl, eq-text_eq, ◌≡◌, refl, ap, ◌∙◌, subst, Bool, true, false,
  ◌&&◌, Bool-cases, and_split, inl, inr, ◌⊎◌, Option, none, some, List, [], ◌∷◌, arith,
  if◌then◌else◌, get_key, set_key, get_key-set_key, get_key-set_other,
}
use us_stock_helper.UniverseCache.{
  stored, after_enter, finish, get_or_compute, Instant, Duration, CacheOutcome, Slot, Attempt,
  MarketUniverseCache, is_fresh, is_before, still_fresh, new_slot, retry_at_of, enter, enter_with,
  join_or_elect, elect, leave, store,
}

-- The sections of the threads, in the order in which they take the lock.
pub data CacheStep (V : Type 0) : Type 0 where
  enter_step : Text → Text → Instant → Instant → CacheStep V
  leave_step : Text → ℕ → CacheStep V
  store_step : Text → Text → CacheOutcome V → Instant → CacheStep V

-- `attempt is not None and attempt.key == key`
abbrev pub is_under_way : Text → Option Attempt → Bool
is_under_way key none = false
is_under_way key (some attempt) = text_eq attempt.key key

module _ {V : Type 0} where
  unfoldable pub apply_step : CacheStep V → MarketUniverseCache V → MarketUniverseCache V
  apply_step (enter_step name key now clock) c = (enter name key now clock c).1
  apply_step (leave_step name m) c = leave name m c
  apply_step (store_step name key outcome clock) c = store name key outcome clock c

  unfoldable pub run_steps : List (CacheStep V) → MarketUniverseCache V → MarketUniverseCache V
  run_steps [] c = c
  run_steps (s ∷ ss) c = run_steps ss (apply_step s c)

  -- The slot that the last of the steps to store under the name leaves, or the one before them.
  unfoldable pub last_stored :
      Text → Duration → List (CacheStep V) → Option (Slot V) → Option (Slot V)
  last_stored name retry [] before = before
  last_stored name retry (store_step n key outcome clock ∷ ss) before =
      let other = last_stored name retry ss before in
      let same = last_stored name retry ss (some (new_slot key outcome clock retry)) in
      if text_eq n name then same else other
  last_stored name retry (s ∷ ss) before = last_stored name retry ss before

  join-slots :
      (name key : Text) (now : Instant) (a : Option Attempt) (c : MarketUniverseCache V)
      → ((join_or_elect name key now a c).1.slots ≡ c.slots)
        × ((join_or_elect name key now a c).1.retry_after ≡ c.retry_after)
  unfolding join_or_elect elect
  join-slots name key now none c = (refl, refl)
  join-slots name key now (some a) c = ground arith

  enter_with-slots :
      (name key : Text) (now clock : Instant) (s : Option (Slot V)) (c : MarketUniverseCache V)
      → ((enter_with name key now clock s c).1.slots ≡ c.slots)
        × ((enter_with name key now clock s c).1.retry_after ≡ c.retry_after)
  unfolding enter_with
  enter_with-slots name key now clock none c = join-slots name key now (get_key name c.inflight) c
  enter_with-slots name key now clock (some s) c =
      elim (Bool-cases (text_eq s.key key && still_fresh clock s)) [
        | inl fresh ↦ rw fresh (refl, refl)
        | inr stale ↦ rw stale (join-slots name key now (get_key name c.inflight) c)
      ]

  -- The slots are what the stores made of them.
  pub run_steps-slots :
      (name : Text) (steps : List (CacheStep V)) (c : MarketUniverseCache V)
      → get_key name (run_steps steps c).slots
        ≡ last_stored name c.retry_after steps (get_key name c.slots)
  unfolding run_steps apply_step enter leave store last_stored
  run_steps-slots name [] c = refl
  run_steps-slots name (enter_step n key now clock ∷ ss) c =
      let it = enter_with-slots n key now clock (get_key n c.slots) c in
      run_steps-slots name ss (enter n key now clock c).1
      ∙ ap (λ r. last_stored name r ss (get_key name (enter n key now clock c).1.slots)) it.1
      ∙ ap (λ d. last_stored name c.retry_after ss (get_key name d)) it.0
  run_steps-slots name (leave_step n m ∷ ss) c = run_steps-slots name ss (leave n m c)
  run_steps-slots name (store_step n key outcome clock ∷ ss) c =
      run_steps-slots name ss (store n key outcome clock c) ∙ elim (Bool-cases (text_eq n name)) [
        | inl same ↦ rw same (
            ap (last_stored name c.retry_after ss) (
              subst
                (λ k.
                  get_key k (set_key n (new_slot key outcome clock c.retry_after) c.slots)
                  ≡ some (new_slot key outcome clock c.retry_after))
                (eq-text_eq n name same) (get_key-set_key n _ c.slots)))
        | inr other ↦
            rw other
              (ap (last_stored name c.retry_after ss) (get_key-set_other name n _ c.slots other))
      ]

  -- What a leader answers: the value that it computes, as no cache hit, or nothing when that raises.
  abbrev pub computed : Option (CacheOutcome V) → Option (V × Bool)
  computed none = none
  computed (some outcome) = some (outcome.value, false)

  -- The three answers of a call that finds this slot and this attempt: the stored value and the
  -- pending one count as cache hits, the computed one does not.
  abbrev pub Answers :
      Text
      → Instant
      → Option (Slot V)
      → Option Attempt
      → Option (CacheOutcome V)
      → (Instant → V)
      → Option (V × Bool)
      → Type 0
  Answers key clock found attempt outcome pending_value answer =
      ((slot : Slot V) × (found ≡ some slot)
        × (slot.key ≡ key)
        × (still_fresh clock slot ≡ true)
        × (answer ≡ some (slot.value, true)))
      ⊎ ((other : Attempt) × (is_fresh key clock found ≡ false)
          × (attempt ≡ some other)
          × (other.key ≡ key)
          × (answer ≡ some (pending_value other.started_at, true)))
      ⊎ ((is_fresh key clock found ≡ false)
          × (is_under_way key attempt ≡ false)
          × (answer ≡ computed outcome))

  after_elect :
      (name key : Text) (now later : Instant) (outcome : Option (CacheOutcome V))
      (pending_value : Instant → V) (c : MarketUniverseCache V)
      → (after_enter name key outcome pending_value later (elect name key now c)).0
        ≡ computed outcome
  unfolding elect after_enter finish
  after_elect name key now later none pending_value c = refl
  after_elect name key now later (some outcome) pending_value c = refl

  join-Answers :
      (name key : Text) (now clock later : Instant) (outcome : Option (CacheOutcome V))
      (pending_value : Instant → V) (found : Option (Slot V)) (attempt : Option Attempt)
      (c : MarketUniverseCache V)
      → is_fresh key clock found ≡ false
      → Answers key clock found attempt outcome pending_value
          (after_enter name key outcome pending_value later
            (join_or_elect name key now attempt c)).0
  unfolding join_or_elect after_enter
  join-Answers name key now clock later outcome pending_value found none c old =
      inr (inr (old, refl, after_elect name key now later outcome pending_value c))
  join-Answers name key now clock later outcome pending_value found (some a) c old =
      elim (Bool-cases (text_eq a.key key)) [
        | inl same ↦ rw same (inr (inl (a, old, refl, eq-text_eq a.key key same, refl)))
        | inr other ↦
            let elects : join_or_elect name key now (some a) c ≡ elect name key now c =
              rw other refl in
            inr (
              inr (
                old,
                other,
                ap (λ e. (after_enter name key outcome pending_value later e).0) elects
                    ∙ after_elect name key now later outcome pending_value c,
              ))
      ]

  enter_with-Answers :
      (name key : Text) (now clock later : Instant) (outcome : Option (CacheOutcome V))
      (pending_value : Instant → V) (found : Option (Slot V)) (c : MarketUniverseCache V)
      → Answers key clock found
          (get_key name c.inflight)
          outcome
          pending_value
          (after_enter name key outcome pending_value later
            (enter_with name key now clock found c)).0
  unfolding enter_with after_enter
  enter_with-Answers name key now clock later outcome pending_value none c =
      join-Answers name key now clock later outcome pending_value none (get_key name c.inflight) c
        refl
  enter_with-Answers name key now clock later outcome pending_value (some s) c =
      elim (Bool-cases (text_eq s.key key && still_fresh clock s)) [
        | inl fresh ↦
            let (same, kept) = and_split (text_eq s.key key) (still_fresh clock s) fresh in
            inl (s, refl, eq-text_eq s.key key same, kept, rw fresh refl)
        | inr stale ↦
            let skips : enter_with name key now clock (some s) c
                ≡ join_or_elect name key now (get_key name c.inflight) c =
              rw stale refl in
            subst
              (λ e.
                Answers key clock (some s) (get_key name c.inflight) outcome pending_value
                  (after_enter name key outcome pending_value later e).0)
              (sym skips)
              (join-Answers name key now clock later outcome pending_value (some s)
                (get_key name c.inflight) c stale)
      ]

  -- Whatever order the sections of the threads have taken, a call answers with the last value that
  -- was stored under the name, as a cache hit, when it was stored for the key and is still fresh.
  -- When not, and an attempt for the key is in flight, it answers with the pending value of the time
  -- when that attempt began, as a cache hit too. Otherwise it computes, and answers with that value,
  -- as no cache hit, or raises as the computation does.
  pub run_steps-Answers :
      (name key : Text) (now clock later : Instant) (outcome : Option (CacheOutcome V))
      (pending_value : Instant → V) (steps : List (CacheStep V)) (c : MarketUniverseCache V)
      → let met = run_steps steps c in
        Answers key clock
          (last_stored name c.retry_after steps (get_key name c.slots))
          (get_key name met.inflight)
          outcome
          pending_value
          (get_or_compute name key now outcome pending_value clock later met).0
  unfolding get_or_compute enter
  run_steps-Answers name key now clock later outcome pending_value steps c =
      let met = run_steps steps c in
      subst
        (λ found.
          Answers key clock found (get_key name met.inflight) outcome pending_value
            (get_or_compute name key now outcome pending_value clock later met).0)
        (run_steps-slots name steps c)
        (enter_with-Answers name key now clock later outcome pending_value _ met)

  -- What one call leaves to the next: a healthy value for as long as the key is the same, any other
  -- until the time to try again.
  pub store_kept :
      (name key : Text) (now clock since : Instant) (outcome : CacheOutcome V)
      (c : MarketUniverseCache V)
      → is_before clock (retry_at_of outcome.healthy since c.retry_after) ≡ true
      → (enter name key now clock (store name key outcome since c)).0 ≡ stored outcome.value
  unfolding enter store enter_with
  store_kept name key now clock since outcome c fresh =
      rw
        (
          get_key-set_key name (new_slot key outcome since c.retry_after) c.slots,
          text_eq_refl key,
          fresh,
        )
        refl
