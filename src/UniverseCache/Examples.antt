-- ===== src/UniverseCache/Examples.antt =====
-- Runs of the universe cache with numbers for values.
use us_stock_helper.Prelude.{
  ℕ, ◌≤◌, Text, codes, text_eq, ◌≡◌, refl, true, false, none, some, List, [], ◌∷◌, count_where,
  get_key, set_key, del_key,
}
use us_stock_helper.UniverseCache.{
  CacheOutcome, MarketUniverseCache, stored, elected, enter, enter_with, join_or_elect, elect,
  leave, store, finish, after_enter, get_or_compute, new_attempt,
}
use us_stock_helper.UniverseCache.Freshness.{
  CacheStep, apply_step, enter_step, leave_step, store_step, run_steps, last_stored, Answers,
  run_steps-Answers,
}
use us_stock_helper.UniverseCache.Flight.{
  FlightStep, arrive, compute_ends, outcome_stored, run_flight, is_of,
}
use us_stock_helper.UniverseCache.Flight.Single.{single_flight}
use us_stock_helper.UniverseCache.Flight.Gap.{gap_elects}

abbrev breadth : Text
breadth = codes "breadth"

abbrev today : Text
today = codes "2026-08-17"

abbrev empty_cache : MarketUniverseCache ℕ
empty_cache = record { retry_after = 180; slots = []; inflight = []; next_marker = 0 }

abbrev partial_outcome : CacheOutcome ℕ
partial_outcome = record { value = 7; healthy = false }

abbrev full_outcome : CacheOutcome ℕ
full_outcome = record { value = 8; healthy = true }

-- A partial value is replayed for 180 and computed again then; the healthy one stays.
abbrev steps : List (CacheStep ℕ)
steps =
    enter_step breadth today 5 10
    ∷ leave_step breadth 0
    ∷ store_step breadth today partial_outcome 20
    ∷ []

replayed : (enter breadth today 60 199 (run_steps steps empty_cache)).0 ≡ stored 7
unfolding run_steps apply_step enter enter_with join_or_elect elect leave store get_key set_key
    del_key text_eq
replayed = refl

computed_again : (enter breadth today 60 200 (run_steps steps empty_cache)).0 ≡ elected 1
unfolding run_steps apply_step enter enter_with join_or_elect elect leave store get_key set_key
    del_key text_eq
computed_again = refl

computed :
    (get_or_compute breadth today 5 (some full_outcome) (λ t. t) 10 20 empty_cache).0
    ≡ some (8, false)
unfolding get_or_compute after_enter finish enter enter_with join_or_elect elect leave store get_key
    set_key del_key text_eq
computed = refl

run_steps-Answers_example :
    Answers today 199
      (last_stored breadth 180 steps none)
      none
      (some full_outcome)
      (λ t. t)
      (get_or_compute breadth today 60
        (some full_outcome)
        (λ t. t)
        199
        210
        (run_steps steps empty_cache)).0
unfolding get_key run_steps apply_step enter enter_with join_or_elect elect leave store set_key
    del_key text_eq
run_steps-Answers_example =
    run_steps-Answers breadth today 60 199 210 (some full_outcome) (λ t. t) steps empty_cache

abbrev burst : List (FlightStep ℕ)
burst =
    arrive breadth today 5 10
    ∷ arrive breadth today 6 11
    ∷ arrive breadth today 7 12
    ∷ compute_ends breadth 0
    ∷ arrive breadth today 8 13
    ∷ outcome_stored breadth today full_outcome 20
    ∷ []

single_flight_example :
    count_where
      (is_of breadth)
      (run_flight burst (record { cache = empty_cache; leaders = [] })).leaders
    ≤ 1
unfolding get_key
single_flight_example =
    single_flight breadth today burst empty_cache refl
      (λ e. refl, (λ e. refl, (λ e. refl, (tt, (λ e. refl, (tt, tt))))))

abbrev flying_cache : MarketUniverseCache ℕ
flying_cache = record empty_cache {
  inflight = (breadth, new_attempt today 5 0) ∷ [];
  next_marker = 1;
}

-- A follower of an attempt under way is told when that began, as a cache hit.
follower_waits :
    (get_or_compute breadth today 6 (some full_outcome) (λ t. t) 11 12 flying_cache).0
    ≡ some (5, true)
unfolding get_or_compute after_enter enter enter_with join_or_elect get_key text_eq
follower_waits = refl

gap_elects_example : (enter breadth today 6 11 (leave breadth 0 flying_cache)).0 ≡ elected 1
unfolding get_key text_eq
gap_elects_example = gap_elects breadth today 6 11 (new_attempt today 5 0) flying_cache refl refl
